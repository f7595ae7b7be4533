-- ===== src/Logger/Items.antt =====
-- A specification of the formats of my_nginx_event/src/logger/my_logger.cpp: a format is a list of
-- items, and each item has its letters, its argument and its text.
use mynginx_evnet_module.Base.{ℕ, ◌%◌, ◌^◌, ◌≡◌, false, List, [], ◌∷◌, ◌++◌, ◌==◌}
use mynginx_evnet_module.Base.Bytes.{Bytes}
use mynginx_evnet_module.Base.Decimal.{AllDigits, value}
use mynginx_evnet_module.Base.CString.{c_str}
use mynginx_evnet_module.Logger.Format.{Arg, word, pid, text_arg, fill_of, extend_sign}
use mynginx_evnet_module.Logger.Emit.{number_field, signed_field}

pub data Kind : Type 0 where
  as_signed : Kind
  as_unsigned : Kind
  as_lower : Kind
  as_upper : Kind

-- A number has the digits of its width, which may be none, and may start with the zero that asks for
-- zeros in front.
pub data Item : Type 0 where
  plain : ℕ → Item
  percent : Item
  number : Bytes → Kind → ℕ → Item
  process : ℕ → Item
  string : Bytes → Item

abbrev pub letters : Kind → Bytes
letters as_signed = b'd' ∷ []
letters as_unsigned = b'u' ∷ b'd' ∷ []
letters as_lower = b'x' ∷ b'd' ∷ []
letters as_upper = b'X' ∷ b'd' ∷ []

abbrev pub item_format : Item → Bytes
item_format (plain c) = c ∷ []
item_format percent = b'%' ∷ b'%' ∷ []
item_format (number ds kind w) = b'%' ∷ ds ++ letters kind
item_format (process w) = b'%' ∷ b'P' ∷ []
item_format (string p) = b'%' ∷ b's' ∷ []

abbrev pub format : List Item → Bytes
format [] = []
format (i ∷ items) = item_format i ++ format items

abbrev pub item_text : Item → Bytes
item_text (plain c) = c ∷ []
item_text percent = b'%' ∷ []
item_text (number ds as_signed w) = signed_field (w % 2 ^ 64) (fill_of ds) 0 (value 0 ds % 2 ^ 64)
item_text (number ds as_unsigned w) = number_field (w % 2 ^ 64) (fill_of ds) 0 (value 0 ds % 2 ^ 64)
item_text (number ds as_lower w) = number_field (w % 2 ^ 64) (fill_of ds) 1 (value 0 ds % 2 ^ 64)
item_text (number ds as_upper w) = number_field (w % 2 ^ 64) (fill_of ds) 2 (value 0 ds % 2 ^ 64)
item_text (process w) = signed_field (extend_sign w) b' ' 0 0
item_text (string p) = c_str p

abbrev pub rendering : List Item → Bytes
rendering [] = []
rendering (i ∷ items) = item_text i ++ rendering items

-- A plain byte is neither zero nor a percent sign, and a width is made of digits.
abbrev pub WellFormed : List Item → Type 0
WellFormed [] = Unit {0}
WellFormed (plain c ∷ items) = (((c == 0) ≡ false) × ((c == b'%') ≡ false)) × WellFormed items
WellFormed (number ds kind w ∷ items) = AllDigits ds × WellFormed items
WellFormed (_ ∷ items) = WellFormed items

module _ {D : Type 0} where
  abbrev pub item_args : Item → List (Arg D)
  item_args (plain c) = []
  item_args percent = []
  item_args (number ds kind w) = word w ∷ []
  item_args (process w) = pid w ∷ []
  item_args (string p) = text_arg p ∷ []

  abbrev pub arguments : List Item → List (Arg D)
  arguments [] = []
  arguments (i ∷ items) = item_args i ++ arguments items

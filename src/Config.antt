-- ===== src/Config.antt =====
-- `MyConf` of my_nginx_event/src/config/my_conf.cpp, on the text of the configuration file.
pub mod RoundTrip
use mynginx_evnet_module.Base.{
  ℕ, zero, suc, ◌+◌, ◌-◌, ◌*◌, Bool, true, false, ◌&&◌, ◌||◌, Option, none, some, List, [], ◌∷◌,
  ◌++◌, if◌then◌else◌, leb, ◌==◌, take, drop,
}
use mynginx_evnet_module.Base.Bytes.{Bytes, is_empty, equal, find_byte}
use mynginx_evnet_module.Base.CString.{c_str, same_text}
use mynginx_evnet_module.Http.Filename.{is_space}

-- `myConfItem_`, whose arrays of 50 and 500 bytes start out as zeros.
pub record ConfItem : Type 0 where
  pub item_name : Bytes
  pub item_content : Bytes

abbrev pub name_limit : ℕ
name_limit = 49

abbrev pub content_limit : ℕ
content_limit = 499

abbrev pub cons_first : ℕ → List Bytes → List Bytes
cons_first c [] = (c ∷ []) ∷ []
cons_first c (l ∷ ls) = (c ∷ l) ∷ ls

-- `getline` until the end of the file.
unfoldable pub split_lines : Bytes → List Bytes
split_lines [] = []
split_lines (c ∷ cs) =
    let rest = split_lines cs in if c == b'\n' then [] ∷ rest else cons_first c rest

unfoldable pub trim_front : Bytes → Bytes
trim_front [] = []
trim_front (c ∷ cs) = let rest = trim_front cs in if is_space c then rest else c ∷ cs

unfoldable pub trim_back : Bytes → Bytes
trim_back [] = []
trim_back (c ∷ cs) = let rest = trim_back cs in if is_empty rest && is_space c then [] else c ∷ rest

-- `Trim`
unfoldable pub trim : Bytes → Bytes
unfolding trim_front trim_back
trim text = trim_back (trim_front text)

-- An empty line, a comment or a section.
abbrev pub is_skipped : Bytes → Bool
is_skipped [] = true
is_skipped (c ∷ cs) = c == b';' || (c == b'#' || c == b'[')

-- `strncpy` of the key and the value into the arrays.
unfoldable pub new_item : Bytes → Bytes → ConfItem
unfolding trim
new_item key text = record {
  item_name = take name_limit (c_str (trim key));
  item_content = take content_limit (c_str (trim text));
}

abbrev pub item_at : Bytes → Option ℕ → List ConfItem
item_at line none = []
item_at line (some pos) = new_item (take pos line) (drop (pos + 1) line) ∷ []

-- The item of a line, if it has one.
unfoldable pub read_item : Bytes → List ConfItem
unfolding new_item
read_item line = if is_skipped line then [] else item_at line (find_byte b'=' line)

unfoldable pub read_items : List Bytes → List ConfItem
unfolding read_item
read_items [] = []
read_items (line ∷ lines) = read_item (trim line) ++ read_items lines

-- `LoadConf`, once the file is open: the items behind those that are there.
unfoldable pub load_conf : Bytes → List ConfItem → List ConfItem
unfolding split_lines read_items
load_conf text items = items ++ read_items (split_lines text)

-- `GetString`: the first item of the name.
unfoldable pub get_string : Bytes → List ConfItem → Option Bytes
get_string key [] = none
get_string key (i ∷ items) =
    if equal i.item_name key then some i.item_content else get_string key items

-- `atoi`: a sign, true for minus, and the digits.
unfoldable pub digits_value : ℕ → Bytes → ℕ
digits_value acc [] = acc
digits_value acc (c ∷ cs) =
    let rest = digits_value (acc * 10 + (c - b'0')) cs in
    if leb b'0' c && leb c b'9' then rest else acc

unfoldable pub atoi : Bytes → Bool × ℕ
unfolding trim_front digits_value
atoi text = elim (trim_front text) [
  | [] ↦ (false, 0)
  | c ∷ cs ↦
      if c == b'-'
      then (true, digits_value 0 cs)
      else if c == b'+'
      then (false, digits_value 0 cs)
      else (false, digits_value 0 (c ∷ cs))
]

-- `GetIntDefault`, which compares names without regard to case.
unfoldable pub get_int_default : Bytes → Bool × ℕ → List ConfItem → Bool × ℕ
unfolding atoi
get_int_default key default [] = default
get_int_default key default (i ∷ items) =
    if same_text i.item_name key then atoi i.item_content else get_int_default key default items

-- ===== src/Config/RoundTrip.antt =====
-- A configuration file that is written as `key = value` lines is read as these items:
-- my_nginx_event/src/config/my_conf.cpp.
use mynginx_evnet_module.Base.{
  ◌≤◌, ◌≡◌, refl, ap, ◌∙◌, false, List, [], ◌∷◌, ◌++◌, if◌then◌else◌, length, take, take_all,
  take_before, drop_past,
}
use mathlib.Core.Path.{ap₂}
use mynginx_evnet_module.Base.Bytes.{Bytes, find_byte, find_byte-append, Lacks, Lacks-append}
use mynginx_evnet_module.Base.CString.{c_str}
use mynginx_evnet_module.Config.{
  ConfItem, name_limit, content_limit, split_lines, trim, is_skipped, new_item, item_at, read_item,
  read_items, load_conf,
}

-- What can be written: no line break and no zero byte, no `=` in the key, nothing to trim on the line
-- or at either side, a key that starts no comment, and both within their arrays.
pub record IsItem (i : ConfItem) : Type 0 where
  pub key_lacks_equals : Lacks b'=' i.item_name
  pub key_lacks_break : Lacks b'\n' i.item_name
  pub content_lacks_break : Lacks b'\n' i.item_content
  pub key_lacks_zero : Lacks 0 i.item_name
  pub content_lacks_zero : Lacks 0 i.item_content
  pub key_trimmed : trim i.item_name ≡ i.item_name
  pub content_trimmed : trim i.item_content ≡ i.item_content
  pub line_trimmed :
      trim (i.item_name ++ b'=' ∷ i.item_content) ≡ i.item_name ++ b'=' ∷ i.item_content
  pub not_skipped : is_skipped (i.item_name ++ b'=' ∷ i.item_content) ≡ false
  pub key_short : length i.item_name ≤ name_limit
  pub content_short : length i.item_content ≤ content_limit

abbrev pub AreItems : List ConfItem → Type 0
AreItems [] = Unit {0}
AreItems (i ∷ is) = IsItem i × AreItems is

abbrev pub item_line : ConfItem → Bytes
item_line i = i.item_name ++ b'=' ∷ i.item_content

abbrev pub file_text : List ConfItem → Bytes
file_text [] = []
file_text (i ∷ is) = item_line i ++ b'\n' ∷ file_text is

split_lines-line :
    (line rest : Bytes)
    → Lacks b'\n' line
    → split_lines (line ++ b'\n' ∷ rest) ≡ line ∷ split_lines rest
unfolding split_lines
split_lines-line [] rest h = refl
split_lines-line (c ∷ cs) rest h = rw (h.0, split_lines-line cs rest h.1)

c_str-Lacks : (cs : Bytes) → Lacks 0 cs → c_str cs ≡ cs
unfolding c_str
c_str-Lacks [] h = refl
c_str-Lacks (c ∷ cs) h = rw h.0 (ap (λ t. c ∷ t) (c_str-Lacks cs h.1))

new_item-IsItem : (i : ConfItem) → IsItem i → new_item i.item_name i.item_content ≡ i
unfolding new_item
new_item-IsItem i v =
    let n : take name_limit (c_str (trim i.item_name)) ≡ i.item_name =
      ap (λ t. take name_limit (c_str t)) v.key_trimmed
      ∙ ap (take name_limit) (c_str-Lacks i.item_name v.key_lacks_zero)
      ∙ take_all name_limit i.item_name v.key_short in
    let c : take content_limit (c_str (trim i.item_content)) ≡ i.item_content =
      ap (λ t. take content_limit (c_str t)) v.content_trimmed
      ∙ ap (take content_limit) (c_str-Lacks i.item_content v.content_lacks_zero)
      ∙ take_all content_limit i.item_content v.content_short in
    ap₂ (λ a b. record { item_name = a; item_content = b }) n c

read_item-line : (i : ConfItem) → IsItem i → read_item (item_line i) ≡ i ∷ []
unfolding read_item
read_item-line i v =
    ap (λ b. if b then [] else item_at (item_line i) (find_byte b'=' (item_line i))) v.not_skipped
    ∙ ap (item_at (item_line i))
        (find_byte-append b'=' i.item_name i.item_content v.key_lacks_equals)
    ∙ ap₂ (λ a b. new_item a b ∷ []) (take_before i.item_name (b'=' ∷ i.item_content))
        (drop_past i.item_name i.item_content b'=')
    ∙ ap (λ j. j ∷ []) (new_item-IsItem i v)

read_items-lines : (is : List ConfItem) → AreItems is → read_items (split_lines (file_text is)) ≡ is
unfolding read_items split_lines
read_items-lines [] v = refl
read_items-lines (i ∷ is) v =
    ap read_items (
      split_lines-line (item_line i) (file_text is) (
        Lacks-append b'\n' i.item_name (b'=' ∷ i.item_content) v.0.key_lacks_break
          (refl, v.0.content_lacks_break)))
    ∙ ap (λ l. read_item l ++ read_items (split_lines (file_text is))) v.0.line_trimmed
    ∙ ap₂ (λ a b. a ++ b) (read_item-line i v.0) (read_items-lines is v.1)

-- A file of `key=value` lines is read as exactly these items, in order, behind those that were there:
-- for keys and values without line breaks and zero bytes, with nothing to trim, short enough for their
-- arrays, and keys that hold no `=` and start no comment or section.
pub load_conf-file_text :
    (is items : List ConfItem) → AreItems is → load_conf (file_text is) items ≡ items ++ is
unfolding load_conf
load_conf-file_text is items v = ap (λ l. items ++ l) (read_items-lines is v)

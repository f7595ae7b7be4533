-- ===== src/Http/Files.antt =====
-- `FileWriter` of my_nginx_event/include/http/my_http_request.h: the `std::ofstream` that takes a
-- large upload. What the file system answers is a parameter.
use mynginx_evnet_module.Base.{
  Bool, true, false, ◌&&◌, Option, none, some, List, [], ◌∷◌, ◌++◌, if◌then◌else◌,
}
use mynginx_evnet_module.Base.Bytes.{Bytes}

-- The file system: whether a path can be opened for writing, and whether a write succeeds.
pub record FileSystem : Type 0 where
  pub can_open : Bytes → Bool
  pub can_write : Bytes → Bytes → Bool

pub data FileEffect : Type 0 where
  truncated : Bytes → FileEffect
  wrote : Bytes → Bytes → FileEffect

-- An `ofstream`: the open file, the absence of `failbit` and `badbit`, and what it did to the disk.
pub record FileWriter : Type 0 where
  pub open_path : Option Bytes
  pub good : Bool
  pub effects : List FileEffect

abbrev pub new_writer : FileWriter
new_writer = record { open_path = none; good = true; effects = [] }

-- `open` on a stream that is open only sets `failbit`, and `is_open` stays true.
unfoldable pub init_file_stream : FileSystem → FileWriter → Bytes → Bool × FileWriter
init_file_stream fs w path = elim w.open_path [
  | some old ↦ (true, record w { good = false })
  | none ↦
      if fs.can_open path
      then (
        true,
        record w { open_path = some path; good = true; effects = w.effects ++ truncated path ∷ [] },
      )
      else (false, record w { good = false })
]

unfoldable pub write_to_file : FileSystem → FileWriter → Bytes → FileWriter
write_to_file fs w bytes = elim w.open_path [
  | none ↦ w
  | some path ↦
      if w.good && fs.can_write path bytes
      then record w { effects = w.effects ++ wrote path bytes ∷ [] }
      else record w { good = false }
]

unfoldable pub close_file_stream : FileWriter → FileWriter
close_file_stream w = elim w.open_path [ none ↦ w | some path ↦ record w { open_path = none } ]

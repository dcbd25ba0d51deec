-- ===== src/Tests/Storage.antt =====
-- The theorems of the storages, applied.
use webrtc_dht.Prelude.{◌≡◌, refl, none, some, ite, take, [], ◌∷◌, ◌++◌, arith, Bytes, codes}
use webrtc_dht.Prelude.Assoc
use webrtc_dht.Key.{key_eq}
use webrtc_dht.Key.Hex.{hex_encode}
use webrtc_dht.Types.{message, wrapped, ok, err}
use webrtc_dht.Storage.Memory.{MemoryStorage}
use webrtc_dht.Storage.Files.{
  FileSystem, FilePath, read_file, write_file, omit_empty, path_eq, join,
}
use webrtc_dht.Storage.Disk.{
  DiskStorage, new_disk_storage, meta_path, blob_path, get, put, put_blob, get_blob,
}
use webrtc_dht.Storage.Laws.{disk_get-put}
use webrtc_dht.Storage.Blobs.{
  IsAddressed, IsSplit, put_blob-IsAddressed, put_blob_cut, get_blob-put_blob,
}
use webrtc_dht.Storage.Escape.{get_blob_escapes}
use webrtc_dht.Tests.Codec.{formats}
use webrtc_dht.Tests.Data.{key, key-IsKey, inline_value}

abbrev base : FilePath
base = codes "dht" ∷ []

abbrev empty : FileSystem
empty = record { files = []; fault = λ p. none; cut = λ p. none }

abbrev disk : DiskStorage
disk = record { meta_dir = codes "meta" ∷ base; blob_dir = codes "blobs" ∷ base; fs = empty }

abbrev few : MemoryStorage
few = record { entries = (key 7, inline_value) ∷ [] }

disk_get-put_example :
    get formats (put formats disk (key 4) inline_value) (key 4)
    ≡ ite
        (key_eq (key 4) (key 4))
        (some (record inline_value { body = omit_empty inline_value.body }))
        (get formats disk (key 4))
disk_get-put_example =
    disk_get-put formats disk (key 4) (key 4) inline_value (key-IsKey 4 (omega arith))
      (key-IsKey 4 (omega arith)) (key-IsKey 0 (omega arith))
      (record { opens = refl; whole = refl })

empty-IsAddressed : IsAddressed formats disk
unfolding read_file Assoc.lookup
empty-IsAddressed b c e = absurd (cc)

put_blob_ok : (put_blob formats disk (1 ∷ 2 ∷ [])).1 ≡ ok (hex_encode (formats.sha256 (1 ∷ 2 ∷ [])))
unfolding put_blob read_file Assoc.lookup write_file
put_blob_ok = refl

get_blob-put_blob_example :
    (hex_encode (formats.sha256 (1 ∷ 2 ∷ [])) ≡ hex_encode (formats.sha256 (1 ∷ 2 ∷ [])))
    × ((c : Bytes) × (get_blob formats
            (put_blob formats disk (1 ∷ 2 ∷ [])).0
            (hex_encode (formats.sha256 (1 ∷ 2 ∷ [])))
          ≡ ok c)
        × (formats.sha256 c ≡ formats.sha256 (1 ∷ 2 ∷ [])))
get_blob-put_blob_example =
    get_blob-put_blob formats disk (1 ∷ 2 ∷ []) (hex_encode (formats.sha256 (1 ∷ 2 ∷ [])))
      empty-IsAddressed put_blob_ok

put_blob-IsAddressed_example : IsAddressed formats (put_blob formats disk (1 ∷ 2 ∷ [])).0
put_blob-IsAddressed_example =
    put_blob-IsAddressed formats disk (1 ∷ 2 ∷ []) (hex_encode (formats.sha256 (1 ∷ 2 ∷ [])))
      empty-IsAddressed put_blob_ok

-- A disk that is full after one byte.
abbrev full : DiskStorage
full = record disk { fs = record empty { cut = λ p. some (1, message (codes "no space left")) } }

nothing_there : read_file full.fs (blob_path full (hex_encode (formats.sha256 (1 ∷ 2 ∷ [])))) ≡ none
unfolding read_file Assoc.lookup
nothing_there = refl

put_blob_cut_example :
    let ref = hex_encode (formats.sha256 (1 ∷ 2 ∷ [])) in
    let e = message (codes "no space left") in
    let (s, r) = put_blob formats full (1 ∷ 2 ∷ []) in
    (r ≡ err (wrapped (codes "putblob: ") e))
    × (get_blob formats s ref ≡ ok (take 1 (1 ∷ 2 ∷ [])))
    × (put_blob formats s (1 ∷ 2 ∷ []) ≡ (s, ok ref))
put_blob_cut_example =
    put_blob_cut formats full (1 ∷ 2 ∷ []) 1 (message (codes "no space left")) refl refl
      nothing_there

disk-IsSplit : IsSplit formats disk
unfolding codes
disk-IsSplit e = cc

-- The file of the key 4, with three bytes.
abbrev filled : FileSystem
filled = record {
  files = (meta_path (new_disk_storage base empty) (key 4), 1 ∷ 2 ∷ 3 ∷ []) ∷ [];
  fault = λ p. none;
  cut = λ p. none;
}

filled_lem :
    read_file filled (meta_path (new_disk_storage base filled) (key 4)) ≡ some (1 ∷ 2 ∷ 3 ∷ [])
unfolding read_file new_disk_storage meta_path Assoc.lookup path_eq join hex_encode codes
filled_lem = refl

get_blob_escapes_example :
    get_blob formats (new_disk_storage base filled) (codes "../meta/" ++ hex_encode (key 4))
    ≡ ok (1 ∷ 2 ∷ 3 ∷ [])
get_blob_escapes_example =
    get_blob_escapes formats base filled (key 4) (1 ∷ 2 ∷ 3 ∷ []) (key-IsKey 4 (omega arith))
      filled_lem

-- ===== src/Storage/Escape.antt =====
-- dht/disk_storage.go, `GetBlob`: the reference comes from another node and is joined to the
-- directory as it is.
use webrtc_dht.Prelude.{◌≡◌, refl, sym, ap, ◌∙◌, [], ◌∷◌, ◌++◌, some, arith, Bytes, Text, codes}
use webrtc_dht.Key.{Key, IsKey, key_eq}
use webrtc_dht.Key.Hex.{hex_encode}
use webrtc_dht.Types.{ok}
use webrtc_dht.Storage.Files.{
  FilePath, FileSystem, Formats, IsPlain, join, components, components-plain, follow, follow-plain,
  read_file,
}
use webrtc_dht.Storage.Disk.{new_disk_storage, meta_path, blob_path, get_blob}
use webrtc_dht.Storage.Names.{hex_encode-IsPlain, meta_path_lem}

-- The text `../meta/` and a name, read from the directory of blobs, is that name in the other
-- directory.
escape :
    (base : FilePath) (fs : FileSystem) (name : Text)
    → IsPlain name
    → blob_path (new_disk_storage base fs) (codes "../meta/" ++ name) ≡ name ∷ codes "meta" ∷ base
unfolding blob_path new_disk_storage join codes components follow key_eq
escape base fs name h =
    rw (components-plain [] name h.no_slash, components) (follow-plain _ name h.long)

meta_dir :
    (base : FilePath) (fs : FileSystem) → (new_disk_storage base fs).meta_dir ≡ codes "meta" ∷ base
unfolding new_disk_storage join codes components follow key_eq
meta_dir base fs = refl

-- A reference can lead out of the directory of blobs: whoever asks for the blob `../meta/` and a
-- key in hexadecimal is given the file of the value that is stored under the key.
pub get_blob_escapes :
    (F : Formats) (base : FilePath) (fs : FileSystem) (key : Key) (bytes : Bytes)
    → IsKey key
    → read_file fs (meta_path (new_disk_storage base fs) key) ≡ some bytes
    → get_blob F (new_disk_storage base fs) (codes "../meta/" ++ hex_encode key) ≡ ok bytes
unfolding get_blob new_disk_storage
get_blob_escapes F base fs key bytes h found =
    let there : meta_path (new_disk_storage base fs) key ≡ hex_encode key ∷ codes "meta" ∷ base =
      meta_path_lem (new_disk_storage base fs) key h
      ∙ ap (◌∷◌ (hex_encode key)) (meta_dir base fs) in
    let same = there ∙ sym (escape base fs (hex_encode key) plain) in
    rw (ap (read_file fs) (sym same) ∙ found, get_blob)
  where
    plain : IsPlain (hex_encode key)
    plain = hex_encode-IsPlain key h.bytes (omega (arith, h.size))

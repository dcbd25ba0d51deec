-- ===== src/Storage/Disk.antt =====
-- dht/disk_storage.go: values as JSON files in the directory `meta`, blobs in `blobs`, each under
-- the name of its hash. The lock makes every method one step, so the state is passed along.
use webrtc_dht.Prelude.{Option, none, some, Bytes, Text, codes}
use webrtc_dht.Key.{Key}
use webrtc_dht.Key.Hex.{hex_encode}
use webrtc_dht.Types.{Error, not_found, wrapped, Result, ok, err, ValueMeta}
use webrtc_dht.Storage.Files.{
  FilePath, FileSystem, Formats, join, to_document, of_document, read_file, write_file, remove_file,
}

pub record DiskStorage : Type 0 where
  pub meta_dir : FilePath
  pub blob_dir : FilePath
  pub fs : FileSystem

-- The directories are made if they can be: a failure shows at the first file.
unfoldable pub new_disk_storage : FilePath → FileSystem → DiskStorage
new_disk_storage base_dir fs = record {
  meta_dir = join base_dir (codes "meta");
  blob_dir = join base_dir (codes "blobs");
  fs = fs;
}

unfoldable pub meta_path : DiskStorage → Key → FilePath
meta_path s key = join s.meta_dir (hex_encode key)

unfoldable pub blob_path : DiskStorage → Text → FilePath
blob_path s ref = join s.blob_dir ref

abbrev pub ok_or_none : {A : Type 0} → Result A → Option A
ok_or_none (ok a) = some a
ok_or_none (err e) = none

module _ (F : Formats) where
  -- `json.Unmarshal(data, &meta)` of a file's contents, where an error gives nil.
  unfoldable pub decode : Option Bytes → Option ValueMeta
  decode none = none
  decode (some bytes) = elim (F.document_of bytes) [
    | none ↦ none
    | some d ↦ ok_or_none (of_document d)
  ]

  unfoldable pub get : DiskStorage → Key → Option ValueMeta
  unfolding meta_path
  get s key = decode (read_file s.fs (meta_path s key))

  unfoldable pub put : DiskStorage → Key → ValueMeta → DiskStorage
  unfolding meta_path
  put s key value = record s {
    fs = (write_file s.fs (meta_path s key) (F.text_of (to_document value))).0;
  }

  unfoldable pub delete : DiskStorage → Key → DiskStorage
  unfolding meta_path
  delete s key = record s { fs = remove_file s.fs (meta_path s key) }

  unfoldable pub store_blob :
      DiskStorage → Text → FileSystem × Option Error → DiskStorage × Result Text
  store_blob s ref (fs, none) = (record s { fs = fs }, ok ref)
  store_blob s ref (fs, some e) = (record s { fs = fs }, err (wrapped (codes "putblob: ") e))

  unfoldable pub put_blob : DiskStorage → Bytes → DiskStorage × Result Text
  unfolding store_blob blob_path
  put_blob s blob =
      let ref = hex_encode (F.sha256 blob) in
      elim (read_file s.fs (blob_path s ref)) [
        | some old ↦ (s, ok ref)
        | none ↦ store_blob s ref (write_file s.fs (blob_path s ref) blob)
      ]

  unfoldable pub get_blob : DiskStorage → Text → Result Bytes
  unfolding blob_path
  get_blob s ref = elim (read_file s.fs (blob_path s ref)) [
    | none ↦ err not_found
    | some blob ↦ ok blob
  ]

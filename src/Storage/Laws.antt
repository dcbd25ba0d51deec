-- ===== src/Storage/Laws.antt =====
-- dht/disk_storage.go: what can be read after a call, and the blobs by their hashes.
use webrtc_dht.Prelude.{◌≡◌, ◌∙◌, ap, ◌≢◌, ite, if_pos, if_neg, none, some}
use webrtc_dht.Key.{Key, IsKey, key_eq}
use webrtc_dht.Types.{ValueMeta}
use webrtc_dht.Storage.Files.{
  Formats, path_eq, omit_empty, to_document, of_document-to_document, read_file, read_file-assigned,
  write_file-free, IsFree, read_file-remove_file,
}
use webrtc_dht.Storage.Disk.{DiskStorage, meta_path, get, put, delete, decode}
use webrtc_dht.Storage.Names.{meta_path-injective}

module _ (F : Formats) where
  decode-text_of :
      (v : ValueMeta)
      → IsKey v.blob_node
      → decode F (some (F.text_of (to_document v))) ≡ some (record v { body = omit_empty v.body })
  unfolding decode
  decode-text_of v h =
      rw (F.document_of-text_of (to_document v), decode, of_document-to_document v h)

  -- On disk, where the file of the key can be read and written in whole, a read after put returns
  -- the value under that key, with an empty slice turned nil, and what it returned before under any
  -- other key.
  pub disk_get-put :
      (s : DiskStorage) (key j : Key) (v : ValueMeta)
      → IsKey key
      → IsKey j
      → IsKey v.blob_node
      → IsFree s.fs (meta_path s key)
      → get F (put F s key v) j
        ≡ ite (key_eq key j) (some (record v { body = omit_empty v.body })) (get F s j)
  unfolding get put meta_path
  disk_get-put s key j v p q h free =
      let text = F.text_of (to_document v) in
      let r = read_file-assigned s.fs (meta_path s key) (meta_path s j) text free.opens in
      let found : get F (put F s key v) j
          ≡ decode F (
              ite (path_eq (meta_path s key) (meta_path s j)) (some text)
                (read_file s.fs (meta_path s j))) =
        ap (λ r. decode F (read_file r.0 (meta_path s j)))
          (write_file-free s.fs (meta_path s key) text free)
        ∙ ap (decode F) r in
      rw found (elim (path_eq (meta_path s key) (meta_path s j)) [
        | yes same ↦
            rw (if_pos _ same, if_pos _ (meta_path-injective s key j p q same)) (decode-text_of v h)
        | no other ↦
            let ne : key ≢ j = λ x. other (ap (meta_path s) x) in rw (if_neg _ other, if_neg _ ne)
      ])

  -- A deleted key is absent, and no other key is touched.
  pub disk_get-delete :
      (s : DiskStorage) (key j : Key)
      → IsKey key
      → IsKey j
      → s.fs.fault (meta_path s key) ≡ none
      → get F (delete F s key) j ≡ ite (key_eq key j) none (get F s j)
  unfolding get delete decode
  disk_get-delete s key j p q free =
      rw (read_file-remove_file s.fs (meta_path s key) (meta_path s j) free)
        (elim (path_eq (meta_path s key) (meta_path s j)) [
          | yes same ↦ rw (if_pos _ same, if_pos _ (meta_path-injective s key j p q same))
          | no other ↦
              let ne : key ≢ j = λ x. other (ap (meta_path s) x) in rw (if_neg _ other, if_neg _ ne)
        ])

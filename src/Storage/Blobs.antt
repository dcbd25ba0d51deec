-- ===== src/Storage/Blobs.antt =====
-- dht/disk_storage.go: blobs are found under their hashes, apart from the values.
use webrtc_dht.Prelude.{
  Option, ◌≡◌, refl, sym, ap, ◌∙◌, ◌≢◌, ℕ, if_pos, take, none, some, ◌∷◌, Bytes, Text, codes,
  Option-cases, inl, inr, eq_of_some,
}
use webrtc_dht.Key.{Key, IsKey}
use webrtc_dht.Key.Hex.{hex_encode}
use webrtc_dht.Types.{Error, not_found, wrapped, Result, ok, err, ok-injective}
use webrtc_dht.Storage.Files.{
  FilePath, Formats, path_eq, read_file, write_file, write_file_cases, write_file-cut, assigned,
  IsFree, read_file-assigned, read_file-assigned_ne,
}
use webrtc_dht.Storage.Disk.{
  DiskStorage, meta_path, blob_path, get, put_blob, get_blob, decode, store_blob,
}
use webrtc_dht.Storage.Names.{hex_encode-injective, meta_path_lem, blob_path_lem}

module _ (F : Formats) where
  -- A file in the directory of blobs that bears the name of a hash has contents of that hash.
  abbrev pub IsAddressed : DiskStorage → Type 0
  IsAddressed s =
      (b c : Bytes)
      → read_file s.fs (blob_path s (hex_encode (F.sha256 b))) ≡ some c
      → F.sha256 c ≡ F.sha256 b

  -- The directories of values and of blobs are different.
  abbrev pub IsSplit : DiskStorage → Type 0
  IsSplit s = s.meta_dir ≢ s.blob_dir

  put_blob_cases {ℓ} :
      (P : DiskStorage × Result Text → Type ℓ) (s : DiskStorage) (blob : Bytes)
      → let ref = hex_encode (F.sha256 blob) in
        ((old : Bytes) → read_file s.fs (blob_path s ref) ≡ some old → P (s, ok ref))
        → (IsFree s.fs (blob_path s ref)
            → P (record s { fs = assigned s.fs (blob_path s ref) blob }, ok ref))
        → ((e : Error) → P (s, err (wrapped (codes "putblob: ") e)))
        → ((n : ℕ) (e : Error)
            → P (
              record s { fs = assigned s.fs (blob_path s ref) (take n blob) },
              err (wrapped (codes "putblob: ") e),
            ))
        → P (put_blob F s blob)
  unfolding put_blob store_blob
  put_blob_cases P s blob old new failed stopped =
      elim (Option-cases (read_file s.fs (blob_path s (hex_encode (F.sha256 blob))))) [
        | inr (b, e) ↦ rw (e, put_blob) (old b e)
        | inl missing ↦
            rw (missing, put_blob)
              (write_file_cases (λ r. P (store_blob F s (hex_encode (F.sha256 blob)) r)) s.fs
                (blob_path s (hex_encode (F.sha256 blob))) blob new failed stopped)
      ]

  same_hash :
      (s : DiskStorage) (a b : Bytes)
      → blob_path s (hex_encode (F.sha256 a)) ≡ blob_path s (hex_encode (F.sha256 b))
      → F.sha256 a ≡ F.sha256 b
  same_hash s a b e =
      hex_encode-injective _ _ (F.sha256-IsByte a) (F.sha256-IsByte b)
        (head (sym (blob_path_lem F s a) ∙ e ∙ blob_path_lem F s b))
    where
      head : {x y : Text} {c d : FilePath} → x ∷ c ≡ y ∷ d → x ≡ y
      head h = cc

  -- Where put_blob returns a reference, it keeps it true that a file of the directory of blobs
  -- whose name is a hash in hexadecimal has contents of that hash.
  pub put_blob-IsAddressed :
      (s : DiskStorage) (blob : Bytes) (ref : Text)
      → IsAddressed s
      → (put_blob F s blob).1 ≡ ok ref
      → IsAddressed (put_blob F s blob).0
  unfolding blob_path
  put_blob-IsAddressed s blob ref h =
      put_blob_cases (λ r. r.1 ≡ ok ref → IsAddressed r.0) s blob (λ _ _ _. h)
        (λ free _ b c found.
          let p = blob_path s (hex_encode (F.sha256 blob)) in
          let q = blob_path s (hex_encode (F.sha256 b)) in
          elim (path_eq p q) [
            | yes same ↦
                let is_blob : blob ≡ c = eq_of_some (
                  sym (read_file-assigned s.fs p q blob free.opens ∙ if_pos (path_eq p q) same _ _)
                  ∙ found) in
                rw (← is_blob) (same_hash s blob b same)
            | no other ↦ h b c (sym (read_file-assigned_ne s.fs p q blob other) ∙ found)
          ])
        (λ _ e. absurd (cc)) (λ _ _ e. absurd (cc))

  put_blob-new :
      (s : DiskStorage) (blob : Bytes)
      → let ref = hex_encode (F.sha256 blob) in
        read_file s.fs (blob_path s ref) ≡ none
        → put_blob F s blob ≡ store_blob F s ref (write_file s.fs (blob_path s ref) blob)
  unfolding put_blob
  put_blob-new s blob h = rw (h, put_blob) refl

  put_blob-old :
      (s : DiskStorage) (blob old : Bytes)
      → let ref = hex_encode (F.sha256 blob) in
        read_file s.fs (blob_path s ref) ≡ some old → put_blob F s blob ≡ (s, ok ref)
  unfolding put_blob
  put_blob-old s blob old h = rw (h, put_blob) refl

  -- A write of a new blob that stops is an error; but what was written stays under the name of the
  -- hash of the blob: get_blob returns it, and a later put_blob of the blob returns the reference
  -- and writes nothing.
  pub put_blob_cut :
      (s : DiskStorage) (blob : Bytes) (n : ℕ) (e : Error)
      → let ref = hex_encode (F.sha256 blob) in
        s.fs.fault (blob_path s ref) ≡ none
        → s.fs.cut (blob_path s ref) ≡ some (n, e)
        → read_file s.fs (blob_path s ref) ≡ none
        → let (s', r) = put_blob F s blob in
          (r ≡ err (wrapped (codes "putblob: ") e))
          × (get_blob F s' ref ≡ ok (take n blob))
          × (put_blob F s' blob ≡ (s', ok ref))
  unfolding get_blob blob_path store_blob
  put_blob_cut s blob n e found stops missing =
      let ref = hex_encode (F.sha256 blob) in
      let p = blob_path s ref in
      let after = record s { fs = assigned s.fs p (take n blob) } in
      let there : read_file after.fs p ≡ some (take n blob) =
        read_file-assigned s.fs p p (take n blob) found ∙ if_pos (path_eq p p) refl _ _ in
      let stopped =
        put_blob-new s blob missing
        ∙ ap (store_blob F s ref) (write_file-cut s.fs p blob n e found stops) in
      rw stopped (refl, ap found_or (there), put_blob-old after blob (take n blob) there)
    where
      found_or : Option Bytes → Result Bytes
      found_or o = elim o [ none ↦ err not_found | some b ↦ ok b ]

  -- A blob that was stored is found under its reference, with contents of the same hash.
  pub get_blob-put_blob :
      (s : DiskStorage) (blob : Bytes) (ref : Text)
      → IsAddressed s
      → (put_blob F s blob).1 ≡ ok ref
      → (ref ≡ hex_encode (F.sha256 blob))
        × ((c : Bytes) × (get_blob F (put_blob F s blob).0 ref ≡ ok c)
            × (F.sha256 c ≡ F.sha256 blob))
  unfolding get_blob blob_path
  get_blob-put_blob s blob ref h =
      put_blob_cases
        (λ r.
          r.1 ≡ ok ref
          → (ref ≡ hex_encode (F.sha256 blob))
            × ((c : Bytes) × (get_blob F r.0 ref ≡ ok c) × (F.sha256 c ≡ F.sha256 blob)))
        s blob
        (λ old found e.
          let same = ok-injective e in
          (sym same, (old, rw (← same, found, get_blob), h blob old found)))
        (λ free e.
          let same = ok-injective e in
          let p = blob_path s (hex_encode (F.sha256 blob)) in
          let there = read_file-assigned s.fs p p blob free.opens ∙ if_pos (path_eq p p) refl _ _ in
          (sym same, (blob, rw (← same, there, get_blob), refl)))
        (λ _ e. absurd (cc)) (λ _ _ e. absurd (cc))

  -- Blobs and values do not meet: storing a blob changes no value.
  pub get-put_blob :
      (s : DiskStorage) (blob : Bytes) (key : Key)
      → IsSplit s
      → IsKey key
      → get F (put_blob F s blob).0 key ≡ get F s key
  unfolding get
  get-put_blob s blob key split k =
      put_blob_cases (λ r. get F r.0 key ≡ get F s key) s blob (λ _ _. refl) (λ _. other blob)
        (λ _. refl) (λ n _. other (take n blob))
    where
      apart : {x y : Text} {c d : FilePath} → x ∷ c ≡ y ∷ d → c ≡ d
      apart h = cc

      other :
          (b : Bytes)
          → let p = blob_path s (hex_encode (F.sha256 blob)) in
            get F (record s { fs = assigned s.fs p b }) key ≡ get F s key
      other b =
          let p = blob_path s (hex_encode (F.sha256 blob)) in
          let ne : p ≢ meta_path s key =
            λ x. split (apart (sym (meta_path_lem s key k) ∙ sym x ∙ blob_path_lem F s blob)) in
          ap (decode F) (read_file-assigned_ne s.fs p (meta_path s key) b ne)

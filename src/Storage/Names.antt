-- ===== src/Storage/Names.antt =====
-- dht/disk_storage.go: the file names are plain, and different keys have different ones.
use webrtc_dht.Prelude.{ℕ, ◌<◌, ◌≡◌, sym, ap, ◌∙◌, List, ◌∷◌, arith, length, All, Text}
use webrtc_dht.Key.{Key, IsKey, IsByte}
use webrtc_dht.Key.Hex.{
  hex_encode, hex_decode, hex_decode-hex_encode, hex_digit-ne-slash, length-hex_encode,
}
use webrtc_dht.Types.{ok-injective}
use webrtc_dht.Storage.Files.{FilePath, IsPlain, join-plain, Formats}
use webrtc_dht.Storage.Disk.{DiskStorage, meta_path, blob_path}

pub hex_encode-injective :
    (a b : List ℕ) → All IsByte a → All IsByte b → hex_encode a ≡ hex_encode b → a ≡ b
hex_encode-injective a b p q e =
    ok-injective (sym (hex_decode-hex_encode a p) ∙ ap hex_decode e ∙ hex_decode-hex_encode b q)

pub hex_encode-IsPlain : (bs : List ℕ) → All IsByte bs → 1 < length bs → IsPlain (hex_encode bs)
hex_encode-IsPlain bs h p = record {
  no_slash = hex_digit-ne-slash bs h;
  long = omega (arith, length-hex_encode bs);
}

pub meta_path_lem :
    (s : DiskStorage) (key : Key) → IsKey key → meta_path s key ≡ hex_encode key ∷ s.meta_dir
unfolding meta_path
meta_path_lem s key h =
    join-plain s.meta_dir _ (hex_encode-IsPlain key h.bytes (omega (arith, h.size)))

pub blob_path_lem :
    (F : Formats) (s : DiskStorage) (blob : List ℕ)
    → blob_path s (hex_encode (F.sha256 blob)) ≡ hex_encode (F.sha256 blob) ∷ s.blob_dir
unfolding blob_path
blob_path_lem F s blob = join-plain s.blob_dir _ (
    hex_encode-IsPlain (F.sha256 blob) (F.sha256-IsByte blob) (omega (arith, F.length-sha256 blob)))

pub meta_path-injective :
    (s : DiskStorage) (key j : Key)
    → IsKey key
    → IsKey j
    → meta_path s key ≡ meta_path s j
    → key ≡ j
meta_path-injective s key j p q e =
    hex_encode-injective key j p.bytes q.bytes
      (head (sym (meta_path_lem s key p) ∙ e ∙ meta_path_lem s j q))
  where
    head : {a b : Text} {c d : FilePath} → a ∷ c ≡ b ∷ d → a ≡ b
    head h = cc

-- ===== src/Key/Make.antt =====
-- dht/key.go, `GenerateKey`, `KeyFromString` and `KeyFromBytes`; SHA-1 and the random bytes are
-- given.
use webrtc_dht.Prelude.{
  ℕ, zero, suc, arith, All, All-append, All-take, ◌++◌, take, replicate, length-append, length-take,
  length-replicate, Bytes, Text,
}
use webrtc_dht.Key.Value.{Key, IsByte, IsKey}

-- The bytes that were read, at the start of an array of zeros.
unfoldable pub generate_key : Bytes → Key
generate_key random = take 20 (random ++ replicate 20 0)

abbrev pub key_from_bytes : (Bytes → Bytes) → Bytes → Key
key_from_bytes sha1 b = sha1 b

abbrev pub key_from_string : (Bytes → Bytes) → Text → Key
key_from_string sha1 s = sha1 s

pub zeros-All : (n : ℕ) → All IsByte (replicate n 0)
zeros-All zero = tt
zeros-All (suc n) = (omega arith, zeros-All n)

-- Bytes at the start of an array of zeros make a key, however many there are.
pub padded-IsKey : (bytes : Bytes) → All IsByte bytes → IsKey (take 20 (bytes ++ replicate 20 0))
padded-IsKey bytes h = record {
  size = omega (
    arith,
    length-take 20 (bytes ++ replicate 20 0),
    length-append bytes (replicate 20 0),
    length-replicate {A = ℕ} 20 0,
  );
  bytes =
      All-take IsByte 20 (bytes ++ replicate 20 0)
        (All-append IsByte bytes (replicate 20 0) h (zeros-All 20));
}

pub generate_key-IsKey : (random : Bytes) → All IsByte random → IsKey (generate_key random)
unfolding generate_key
generate_key-IsKey random h = padded-IsKey random h

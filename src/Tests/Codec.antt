-- ===== src/Tests/Codec.antt =====
-- A document written as a list of numbers, with the length before each text, and read back.
use webrtc_dht.Prelude.{
  ℕ, zero, suc, ◌%◌, ◌≡◌, refl, Bool, true, false, Option, none, some, [], ◌∷◌, ◌++◌, ℤ, pos,
  negsuc, length, take, drop, replicate, Bytes, Text, All, arith, ap,
}
use webrtc_dht.Key.{IsByte}
use webrtc_dht.Key.Hex.{Json, null, text, other}
use webrtc_dht.Storage.Files.{MetaDocument, Formats}

infixl 5 ◌>>=◌
abbrev ◌>>=◌ : {A B : Type 0} → Option A → (A → Option B) → Option B
none >>= f = none
some a >>= f = f a

abbrev Reader : Type 0 → Type 0
Reader A = Bytes → Option (A × Bytes)

put_text : Text → Bytes → Bytes
put_text t rest = length t ∷ t ++ rest

take_text : Reader Text
take_text [] = none
take_text (n ∷ bs) = some (take n bs, drop n bs)

take_append : (t rest : Text) → take (length t) (t ++ rest) ≡ t
take_append [] [] = refl
take_append [] (c ∷ cs) = refl
take_append (c ∷ cs) rest = ap (◌∷◌ c) (take_append cs rest)

drop_append : (t rest : Text) → drop (length t) (t ++ rest) ≡ rest
drop_append [] [] = refl
drop_append [] (c ∷ cs) = refl
drop_append (c ∷ cs) rest = drop_append cs rest

take_text-put_text : (t : Text) (rest : Bytes) → take_text (put_text t rest) ≡ some (t, rest)
unfolding take_text put_text
take_text-put_text t rest = rw (take_append t rest, drop_append t rest)

put_bool : Bool → Bytes → Bytes
put_bool true rest = 1 ∷ rest
put_bool false rest = 0 ∷ rest

take_bool : Reader Bool
take_bool (suc zero ∷ rest) = some (true, rest)
take_bool (zero ∷ rest) = some (false, rest)
take_bool bs = none

take_bool-put_bool : (b : Bool) (rest : Bytes) → take_bool (put_bool b rest) ≡ some (b, rest)
unfolding take_bool put_bool
take_bool-put_bool true rest = refl
take_bool-put_bool false rest = refl

put_option : Option Bytes → Bytes → Bytes
put_option none rest = 0 ∷ rest
put_option (some b) rest = 1 ∷ put_text b rest

some_text : Reader (Option Bytes)
unfolding take_text
some_text bs = do (t, rest) ← take_text bs; some (some t, rest)

take_option : Reader (Option Bytes)
unfolding some_text
take_option (zero ∷ rest) = some (none, rest)
take_option (suc zero ∷ rest) = some_text rest
take_option bs = none

take_option-put_option :
    (b : Option Bytes) (rest : Bytes) → take_option (put_option b rest) ≡ some (b, rest)
unfolding take_option put_option some_text
take_option-put_option none rest = refl
take_option-put_option (some b) rest = rw (take_text-put_text b rest)

put_json : Json → Bytes → Bytes
put_json null rest = 0 ∷ rest
put_json (text t) rest = 1 ∷ put_text t rest
put_json other rest = 2 ∷ rest

json_text : Reader Json
unfolding take_text
json_text bs = do (t, rest) ← take_text bs; some (text t, rest)

take_json : Reader Json
unfolding json_text
take_json (zero ∷ rest) = some (null, rest)
take_json (suc zero ∷ rest) = json_text rest
take_json (suc (suc zero) ∷ rest) = some (other, rest)
take_json bs = none

take_json-put_json : (j : Json) (rest : Bytes) → take_json (put_json j rest) ≡ some (j, rest)
unfolding take_json put_json json_text
take_json-put_json null rest = refl
take_json-put_json (text t) rest = rw (take_text-put_text t rest)
take_json-put_json other rest = refl

put_int : ℤ → Bytes → Bytes
put_int (pos n) rest = 0 ∷ n ∷ rest
put_int (negsuc n) rest = 1 ∷ n ∷ rest

take_int : Reader ℤ
take_int (zero ∷ n ∷ rest) = some (pos n, rest)
take_int (suc zero ∷ n ∷ rest) = some (negsuc n, rest)
take_int bs = none

take_int-put_int : (i : ℤ) (rest : Bytes) → take_int (put_int i rest) ≡ some (i, rest)
unfolding take_int put_int
take_int-put_int (pos n) rest = refl
take_int-put_int (negsuc n) rest = refl

text_of : MetaDocument → Bytes
text_of d = put_bool d.inline (
    put_option d.payload
      (put_text d.blob_ref (put_json d.blob_node (put_int d.size (put_text d.mime_type [])))))

document_of : Bytes → Option MetaDocument
document_of bytes = do
  (inline, r₁) ← take_bool bytes
  (payload, r₂) ← take_option r₁
  (blob_ref, r₃) ← take_text r₂
  (blob_node, r₄) ← take_json r₃
  (size, r₅) ← take_int r₄
  (mime_type, r₆) ← take_text r₅
  some (record {
    inline = inline;
    payload = payload;
    blob_ref = blob_ref;
    blob_node = blob_node;
    size = size;
    mime_type = mime_type;
  })

document_of-text_of : (d : MetaDocument) → document_of (text_of d) ≡ some d
unfolding document_of text_of
document_of-text_of d = rw (
  take_bool-put_bool d.inline _,
  take_option-put_option d.payload _,
  take_text-put_text d.blob_ref _,
  take_json-put_json d.blob_node _,
  take_int-put_int d.size _,
  take_text-put_text d.mime_type _,
)

-- Its length, as the hash of a text.
hash_of : Bytes → Bytes
hash_of b = (length b % 256) ∷ replicate 31 0

pub zeros : (n : ℕ) → All IsByte (replicate n 0)
zeros zero = tt
zeros (suc n) = (omega arith, zeros n)

hash_size : (b : Bytes) → length (hash_of b) ≡ 32
unfolding hash_of
hash_size b = refl

hash-IsByte : (b : Bytes) → All IsByte (hash_of b)
unfolding hash_of
hash-IsByte b = (omega arith, zeros 31)

pub formats : Formats
unfolding text_of document_of document_of-text_of hash_of hash_size hash-IsByte
formats = record {
  text_of = text_of;
  document_of = document_of;
  document_of-text_of = document_of-text_of;
  sha256 = hash_of;
  length-sha256 = hash_size;
  sha256-IsByte = hash-IsByte;
}

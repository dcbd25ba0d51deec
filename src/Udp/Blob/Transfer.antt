-- ===== src/Udp/Blob/Transfer.antt =====
-- transport/udp/udp.go, `FetchBlob` and `handleBlobConn`: a blob over a connection that may break.
use webrtc_dht.Prelude.{
  ℕ, zero, suc, le_refl, ◌+◌, ◌*◌, ◌-◌, ◌/◌, ◌%◌, ◌^◌, ◌≤◌, ◌<◌, ◌≡◌, refl, sym, ap, ◌∙◌,
  Bool-cases, inl, inr, true, false, Option, none, [], ◌∷◌, ◌++◌, arith, ltb, leb, ◌==◌,
  if◌then◌else◌, length, take, drop, length-append, length-take, take-append_left, drop-append_left,
  Text, Bytes, codes,
}
use webrtc_dht.Types.{not_found, wrapped, Result, ok, err}
use webrtc_dht.Node.{Node}
use webrtc_dht.Storage.Files.{Formats}
use webrtc_dht.Transport.{Transport}
use webrtc_dht.Udp.Blob.{
  put_bytes, get_bytes, put_uint64, get_uint64, ended, read_full, held_blob, blob_answer,
  handle_blob_conn, blob_read, sized, size_read, asked, fetch_blob,
}

get_bytes-put_bytes :
    (width n : ℕ) (rest : Bytes)
    → n < 256 ^ width
    → get_bytes 0 (put_bytes width n rest) ≡ get_bytes n rest
unfolding get_bytes put_bytes
get_bytes-put_bytes zero n rest h = ap (λ a. get_bytes a rest) {x = 0} {y = n} (omega arith)
get_bytes-put_bytes (suc width) n rest h =
    get_bytes-put_bytes width (n / 256) (n % 256 ∷ rest) (omega arith)
    ∙ ap (λ a. get_bytes a rest) {x = n / 256 * 256 + n % 256} {y = n} (omega arith)

length-put_bytes :
    (width n : ℕ) (rest : Bytes) → length (put_bytes width n rest) ≡ width + length rest
unfolding put_bytes
length-put_bytes zero n rest = omega arith
length-put_bytes (suc width) n rest =
    length-put_bytes width (n / 256) (n % 256 ∷ rest) ∙ omega arith

take-take : (n k : ℕ) (xs : Bytes) → n ≤ k → take n (take k xs) ≡ take n xs
take-take zero k xs h = refl
take-take (suc n) zero xs h = absurd (omega arith)
take-take (suc n) (suc k) [] h = refl
take-take (suc n) (suc k) (x ∷ xs) h = ap (◌∷◌ x) (take-take n k xs (omega arith))

take_nil : (k : ℕ) → take {A = ℕ} k [] ≡ []
take_nil zero = refl
take_nil (suc k) = refl

drop-take : (n k : ℕ) (xs : Bytes) → n ≤ k → drop n (take k xs) ≡ take (k - n) (drop n xs)
drop-take zero k xs h = ap (λ i. take i xs) {x = k} {y = k - 0} (omega arith)
drop-take (suc n) zero xs h = absurd (omega arith)
drop-take (suc n) (suc k) [] h = sym (take_nil (suc k - suc n))
drop-take (suc n) (suc k) (x ∷ xs) h =
    drop-take n k xs (omega arith)
    ∙ ap (λ i. take i (drop n xs)) {x = k - n} {y = suc k - suc n} (omega arith)

-- Reading from what is left of a connection that breaks.
read_full-take :
    (n k : ℕ) (xs : Bytes)
    → n ≤ length xs
    → read_full n (take k xs)
      ≡ (if ltb k n then err (ended k) else ok (take n xs, take (k - n) (drop n xs)))
unfolding read_full
read_full-take n k xs h = elim (Bool-cases (ltb k n)) [
  | inl e ↦
      let size : length (take k xs) ≡ k = length-take k xs ∙ ground arith in
      let short : leb n (length (take k xs)) ≡ false = ground arith in
      rw (e, short) (ap (λ i. err (ended i)) size)
  | inr e ↦
      let long : leb n (length (take k xs)) ≡ true = ground (arith, length-take k xs) in
      rw (e, long)
        (ap (λ i. ok (i, drop n (take k xs))) (take-take n k xs (ground arith))
          ∙ ap (λ i. ok (take n xs, i)) (drop-take n k xs (ground arith)))
]

take_all : (n : ℕ) (xs : Bytes) → length xs ≡ n → take n xs ≡ xs
take_all zero [] h = refl
take_all zero (x ∷ xs) h = absurd (omega arith)
take_all (suc n) [] h = refl
take_all (suc n) (x ∷ xs) h = ap (◌∷◌ x) (take_all n xs (omega arith))

-- What the caller gets of a blob, if the connection breaks after so many bytes.
unfoldable pub received : ℕ → Bytes → Result Bytes
received cut [] = if ltb cut 8 then err (ended cut) else err not_found
received cut (b ∷ bs) =
    if ltb cut 8
    then err (ended cut)
    else if ltb (cut - 8) (length (b ∷ bs))
    then err (wrapped (codes "blob read: ") (ended (cut - 8)))
    else ok (b ∷ bs)

sized-received :
    (cut : ℕ) (bytes : Bytes)
    → ltb cut 8 ≡ false
    → sized (length bytes) (take (cut - 8) bytes) ≡ received cut bytes
unfolding sized received blob_read
sized-received cut [] e = rw e
sized-received cut (b ∷ bs) e =
    ap blob_read (read_full-take (length (b ∷ bs)) (cut - 8) (b ∷ bs) (le_refl _))
    ∙ rw e (elim (Bool-cases (ltb (cut - 8) (length (b ∷ bs)))) [
      | inl f ↦ rw f refl
      | inr f ↦ rw f (ap ok (take_all _ (b ∷ bs) refl))
    ])

received_short : (cut : ℕ) (bytes : Bytes) → ltb cut 8 ≡ true → received cut bytes ≡ err (ended cut)
unfolding received
received_short cut [] e = rw e
received_short cut (b ∷ bs) e = rw e

size_read-received :
    (cut : ℕ) (bytes : Bytes)
    → length bytes < 2 ^ 64
    → size_read (read_full 8 (take cut (put_uint64 (length bytes) ++ bytes))) ≡ received cut bytes
unfolding size_read get_bytes
size_read-received cut bytes h =
    let size = put_uint64 (length bytes) in
    let eight : length size ≡ 8 = length-put_bytes 8 (length bytes) [] in
    let enough : 8 ≤ length (size ++ bytes) = omega (arith, length-append size bytes, eight) in
    let back : get_uint64 size ≡ length bytes =
      get_bytes-put_bytes 8 (length bytes) [] (omega arith) in
    ap size_read (read_full-take 8 cut (size ++ bytes) enough) ∙ elim (Bool-cases (ltb cut 8)) [
      | inl e ↦ rw e (sym (received_short cut bytes e))
      | inr e ↦
          rw (e, take-append_left size bytes 8 eight, drop-append_left size bytes 8 eight, back)
            (sized-received cut bytes e)
    ]

module _ (F : Formats) (T : Transport) (handler : Option Node) (ref : Text) (addr : Text) where
  -- A request for a blob by a reference of 64 bytes, to a node whose blob has fewer than 2 ^ 64
  -- bytes, over a connection that is made but breaks after so many bytes of the answer: the
  -- caller has the blob if all of it came; otherwise it has an error, never a part of the blob.
  -- An empty blob, one that the handler refuses, and that of a node without a handler are
  -- reported as not found.
  pub fetch_blob-handle_blob_conn :
      (cut : ℕ)
      → length ref ≡ 64
      → length (held_blob F T handler ref) < 2 ^ 64
      → fetch_blob addr none none (λ input. take cut (handle_blob_conn F T handler input)) ref
        ≡ received cut (held_blob F T handler ref)
  unfolding fetch_blob asked handle_blob_conn blob_answer read_full
  fetch_blob-handle_blob_conn cut size small =
      let bytes = held_blob F T handler ref in
      let right : (length ref == 64) ≡ true = ground arith in
      let whole : leb 64 (length ref) ≡ true = ground arith in
      rw (right, whole, take_all 64 ref size) (size_read-received cut bytes small)

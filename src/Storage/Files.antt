-- ===== src/Storage/Files.antt =====
-- What dht/disk_storage.go uses of path/filepath, os, encoding/json and crypto/sha256.
-- A path is absolute: the list of its components, the last one first. The file system is a map
-- from paths to contents, with the paths at which an operation fails, and those at which a write
-- stops after so many bytes.
use webrtc_dht.Prelude.{
  ℕ, ◌<◌, ◌≤◌, ◌≡◌, ◌≢◌, ite, Bool, false, Option, none, some, List, [], ◌∷◌, ◌++◌, arith, ◌==◌,
  if◌then◌else◌, Bytes, take, refl, Option-cases, inl, inr, Text, ℤ, All, length, if_neg, ap, ◌∙◌,
  sym,
}
use mathlib.Core.List.{foldl, reverse, reverse-cons, append-nil, append_assoc}
use webrtc_dht.Prelude.Assoc
use webrtc_dht.Key.{key_eq, IsByte, IsKey}
use webrtc_dht.Key.Hex.{Json, marshal_json, unmarshal_json, unmarshal_json-marshal_json}
use webrtc_dht.Types.{Error, Result, ok, ◌>>=◌, ValueMeta}

abbrev pub FilePath : Type 0
FilePath = List Text

unfoldable pub path_eq : Discrete FilePath
unfolding key_eq
path_eq = hlevel key_eq

parent : FilePath → FilePath
parent [] = []
parent (d ∷ ds) = ds

-- One component of a name, as `filepath.Clean` treats it.
unfoldable pub follow : FilePath → Text → FilePath
unfolding parent
follow dir c =
    ite (key_eq c []) dir
      (ite (key_eq c (b'.' ∷ [])) dir (ite (key_eq c (b'.' ∷ b'.' ∷ [])) (parent dir) (c ∷ dir)))

-- The components of a name, of which `part` has been read, its last byte first.
unfoldable pub components : Text → Text → List Text
components part [] = reverse part ∷ []
components part (c ∷ cs) =
    let inside = components (c ∷ part) cs in
    let ended = reverse part ∷ components [] cs in if c == b'/' then ended else inside

-- `filepath.Join(dir, name)`, where `dir` is clean.
unfoldable pub join : FilePath → Text → FilePath
unfolding follow components
join dir name = foldl follow dir (components [] name)

-- A name that is one component.
pub record IsPlain (name : Text) : Type 0 where
  pub no_slash : All (λ c. c ≢ b'/') name
  pub long : 2 < length name

pub components-plain :
    (part name : Text)
    → All (λ c. c ≢ b'/') name
    → components part name ≡ (reverse part ++ name) ∷ []
unfolding components
components-plain part [] h = ap (λ x. x ∷ []) (sym (append-nil (reverse part)))
components-plain part (c ∷ cs) h =
    let inside : (c == b'/') ≡ false = ground (arith, h.0) in
    rw inside (components-plain (c ∷ part) cs h.1 ∙ simp (reverse-cons, append_assoc))

pub follow-plain : (dir : FilePath) (name : Text) → 2 < length name → follow dir name ≡ name ∷ dir
unfolding follow
follow-plain dir name h = rw (
  if_neg _ (longer [] (omega arith)),
  if_neg _ (longer (b'.' ∷ []) (omega arith)),
  if_neg _ (longer (b'.' ∷ b'.' ∷ []) (omega arith)),
)
  where
    longer : (t : Text) → length t ≤ 2 → name ≢ t
    longer t short e = absurd (omega (arith, ap {B = ℕ} length e))

pub join-plain : (dir : FilePath) (name : Text) → IsPlain name → join dir name ≡ name ∷ dir
unfolding join
join-plain dir name h = rw (components-plain [] name h.no_slash) (follow-plain dir name h.long)

-- The members of the JSON object of a `ValueMeta`. By `omitempty` an empty slice is left out; an
-- empty text or a zero is left out too, and read back as such.
pub record MetaDocument : Type 0 where
  pub inline : Bool
  pub payload : Option Bytes
  pub blob_ref : Text
  pub blob_node : Json
  pub size : ℤ
  pub mime_type : Text

unfoldable pub omit_empty : Option Bytes → Option Bytes
omit_empty none = none
omit_empty (some []) = none
omit_empty (some (b ∷ bs)) = some (b ∷ bs)

unfoldable pub to_document : ValueMeta → MetaDocument
unfolding omit_empty
to_document v = record {
  inline = v.inline;
  payload = omit_empty v.body;
  blob_ref = v.blob_ref;
  blob_node = marshal_json v.blob_node;
  size = v.size;
  mime_type = v.mime_type;
}

unfoldable pub of_document : MetaDocument → Result ValueMeta
of_document d = do
  node ← unmarshal_json d.blob_node
  ok (record {
    inline = d.inline;
    body = d.payload;
    blob_ref = d.blob_ref;
    blob_node = node;
    size = d.size;
    mime_type = d.mime_type;
  })

-- A value loses only the difference of an empty and a nil slice.
pub of_document-to_document :
    (v : ValueMeta)
    → IsKey v.blob_node
    → of_document (to_document v) ≡ ok (record v { body = omit_empty v.body })
unfolding of_document to_document
of_document-to_document v h = rw (unmarshal_json-marshal_json v.blob_node h)

-- The text of a document in JSON, and the hash function: what the storage relies on of them.
pub record Formats : Type 0 where
  pub text_of : MetaDocument → Bytes
  pub document_of : Bytes → Option MetaDocument
  pub document_of-text_of : (d : MetaDocument) → document_of (text_of d) ≡ some d
  pub sha256 : Bytes → Bytes
  pub length-sha256 : (b : Bytes) → length (sha256 b) ≡ 32
  pub sha256-IsByte : (b : Bytes) → All IsByte (sha256 b)

pub record FileSystem : Type 0 where
  pub files : List (FilePath × Bytes)
  pub fault : FilePath → Option Error
  pub cut : FilePath → Option (ℕ × Error)

-- `os.ReadFile`, and `os.Stat` with a nil error.
unfoldable pub read_file : FileSystem → FilePath → Option Bytes
read_file fs p = elim (fs.fault p) [ some e ↦ none | none ↦ Assoc.lookup path_eq p fs.files ]

abbrev pub assigned : FileSystem → FilePath → Bytes → FileSystem
assigned fs p b = record fs { files = Assoc.assign path_eq p b fs.files }

written : FileSystem → FilePath → Bytes → Option (ℕ × Error) → FileSystem × Option Error
written fs p b none = (assigned fs p b, none)
written fs p b (some (n, e)) = (assigned fs p (take n b), some e)

-- `os.WriteFile`: a write that stops leaves what it has written.
unfoldable pub write_file : FileSystem → FilePath → Bytes → FileSystem × Option Error
unfolding written
write_file fs p b = elim (fs.fault p) [ some e ↦ (fs, some e) | none ↦ written fs p b (fs.cut p) ]

-- `os.Remove`, whose error the program drops.
unfoldable pub remove_file : FileSystem → FilePath → FileSystem
remove_file fs p = elim (fs.fault p) [
  | some e ↦ fs
  | none ↦ record fs { files = Assoc.remove path_eq p fs.files }
]

-- A file that can be read and written in whole.
pub record IsFree (fs : FileSystem) (p : FilePath) : Type 0 where
  pub opens : fs.fault p ≡ none
  pub whole : fs.cut p ≡ none

pub write_file-free :
    (fs : FileSystem) (p : FilePath) (b : Bytes)
    → IsFree fs p
    → write_file fs p b ≡ (assigned fs p b, none)
unfolding write_file written
write_file-free fs p b h = rw (h.opens, write_file, h.whole) refl

pub write_file-cut :
    (fs : FileSystem) (p : FilePath) (b : Bytes) (n : ℕ) (e : Error)
    → fs.fault p ≡ none
    → fs.cut p ≡ some (n, e)
    → write_file fs p b ≡ (assigned fs p (take n b), some e)
unfolding write_file written
write_file-cut fs p b n e h c = rw (h, write_file, c) refl

-- A write leaves the file as it is, or has written it, in whole or in part.
pub write_file_cases {ℓ} :
    (P : FileSystem × Option Error → Type ℓ) (fs : FileSystem) (p : FilePath) (b : Bytes)
    → (IsFree fs p → P (assigned fs p b, none))
    → ((e : Error) → P (fs, some e))
    → ((n : ℕ) (e : Error) → P (assigned fs p (take n b), some e))
    → P (write_file fs p b)
unfolding write_file written
write_file_cases P fs p b free shut part = elim (Option-cases (fs.fault p)) [
  | inr (e, h) ↦ rw (h, write_file) (shut e)
  | inl h ↦
      rw (h, write_file)
        (elim (Option-cases (fs.cut p)) [
          | inr ((n, e), c) ↦ rw (c, written) (part n e)
          | inl c ↦ rw (c, written) (free (record { opens = h; whole = c }))
        ])
]

pub read_file-assigned :
    (fs : FileSystem) (p q : FilePath) (b : Bytes)
    → fs.fault p ≡ none
    → read_file (assigned fs p b) q ≡ ite (path_eq p q) (some b) (read_file fs q)
unfolding read_file
read_file-assigned fs p q b h = ground (arith, Assoc.lookup-assign path_eq p q b fs.files)

pub read_file-assigned_ne :
    (fs : FileSystem) (p q : FilePath) (b : Bytes)
    → p ≢ q
    → read_file (assigned fs p b) q ≡ read_file fs q
unfolding read_file
read_file-assigned_ne fs p q b h =
    ap (λ o. elim (fs.fault q) [ some e ↦ none | none ↦ o ])
      (Assoc.lookup-assign path_eq p q b fs.files ∙ if_neg (path_eq p q) h _ _)

pub read_file-remove_file :
    (fs : FileSystem) (p q : FilePath)
    → fs.fault p ≡ none
    → read_file (remove_file fs p) q ≡ ite (path_eq p q) none (read_file fs q)
unfolding read_file remove_file
read_file-remove_file fs p q h = ground (arith, Assoc.lookup-remove path_eq p q fs.files)

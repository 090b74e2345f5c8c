-- ===== src/Snapshot.antt =====
-- src/rwkv_runtime/state_snapshot.py: the bytes of a recurrent state. A byte is a number, a dict is the
-- list of its items, and a name is a list of code points.
pub mod Roundtrip
pub mod Checks
use rwkv_agent.Base.{
  ℕ, zero, suc, ◌+◌, ◌-◌, ◌*◌, ◌/◌, ◌%◌, ◌≡◌, ◌≤◌, ◌<◌, ◌==◌, Bool, true, false, not, ◌&&◌, ◌||◌,
  List, [], ◌∷◌, ◌++◌, map, Option, none, some, if◌then◌else◌, ltb, leb, length, is_empty, any,
  take, drop, M, pure, fail, ◌>>=◌, ◌>>◌, raise_if, or_fail, value_error, ok, raise, library_error,
  recursion_error,
}
use rwkv_agent.Decoding.{Text, is_prefix, is_empty_text, text_le}

abbrev pub Bytes : Type 0
Bytes = List ℕ

unfoldable pub same_bytes : Bytes → Bytes → Bool
same_bytes [] [] = true
same_bytes (b ∷ bs) (c ∷ cs) = (b == c) && same_bytes bs cs
same_bytes _ _ = false

unfoldable pub mentions_name : Text → List Text → Bool
mentions_name n [] = false
mentions_name n (m ∷ ms) = same_bytes n m || mentions_name n ms

-- `len(names) == len(set(names))`
unfoldable pub unique_names : List Text → Bool
unique_names [] = true
unique_names (n ∷ ns) = not (mentions_name n ns) && unique_names ns

unfoldable pub insert_name : Text → List Text → List Text
insert_name n [] = n ∷ []
insert_name n (m ∷ ms) = let rest = insert_name n ms in if text_le n m then n ∷ m ∷ ms else m ∷ rest

-- Python's `sorted`, of texts.
unfoldable pub sorted : List Text → List Text
sorted [] = []
sorted (n ∷ ns) = insert_name n (sorted ns)

unfoldable pub same_names : List Text → List Text → Bool
same_names [] [] = true
same_names (n ∷ ns) (m ∷ ms) = same_bytes n m && same_names ns ms
same_names _ _ = false

-- `not name or len(name) > 128 or not name.isascii()`
abbrev pub is_bad_name : Text → Bool
is_bad_name n = is_empty n || ltb 128 (length n) || any (λ c. leb 128 c) n

abbrev pub names_in : {A : Type 0} → List (Text × A) → List Text
names_in = map (λ e. e.0)

-- The outcomes of `json.loads` on bytes decoded as UTF-8: an object, what is refused with a
-- UnicodeDecodeError or another ValueError or is no object, and a RecursionError.
pub data Parsed (A : Type 0) : Type 0 where
  parsed : A → Parsed A
  malformed : Parsed A
  too_deep : Parsed A

-- "__metadata__", which the header of a safetensors file keeps for itself.
abbrev pub reserved_name : Text
reserved_name = 95 ∷ 95 ∷ 109 ∷ 101 ∷ 116 ∷ 97 ∷ 100 ∷ 97 ∷ 116 ∷ 97 ∷ 95 ∷ 95 ∷ []

-- What the code takes from json, hashlib and safetensors. `names_of` gives nothing for a document
-- without a list of names; `dumps`, `save` and `load` give nothing where they raise, as `save` does
-- for tensors that share memory.
pub record Formats : Type 1 where
  pub Tensor : Type 0
  pub Manifest : Type 0
  pub to_cpu : Tensor → Tensor
  pub with_names : List Text → Manifest → Manifest
  pub names_of : Manifest → Option (List Text)
  -- Text keys and JSON's values, as deep and with integers as long as Python's json reads.
  pub is_json : Manifest → Bool
  pub dumps : Manifest → Option Bytes
  pub loads : Bytes → Parsed Manifest
  pub save : List (Text × Tensor) → Option Bytes
  pub load : Bytes → Option (List (Text × Tensor))
  -- The tensors in the order in which the file lists them.
  pub listed : List (Text × Tensor) → List (Text × Tensor)
  pub sha256 : Bytes → Bytes
  pub length-sha256 : (b : Bytes) → length (sha256 b) ≡ 32
  pub names_of-with_names : (ns : List Text) (m : Manifest) → names_of (with_names ns m) ≡ some ns
  pub loads-dumps :
      (m : Manifest) (b : Bytes) → is_json m ≡ true → dumps m ≡ some b → loads b ≡ parsed m
  pub length-dumps : (m : Manifest) (b : Bytes) → dumps m ≡ some b → 2 ≤ length b
  pub load-save :
      (ts : List (Text × Tensor)) (b : Bytes)
      → unique_names (names_in ts) ≡ true
      → mentions_name reserved_name (names_in ts) ≡ false
      → save ts ≡ some b
      → load b ≡ some (listed ts)
  pub length-save : (ts : List (Text × Tensor)) (b : Bytes) → save ts ≡ some b → 0 < length b
  pub names-listed :
      (ts : List (Text × Tensor)) → sorted (names_in (listed ts)) ≡ sorted (names_in ts)

-- The object, or what `decode_state_snapshot` raises without one: it turns a ValueError of the parser
-- into one of its own, and lets a RecursionError pass.
abbrev pub object_of : {A : Type 0} → Parsed A → M (Unit {0}) A
object_of (parsed m) s = ok m s
object_of malformed s = raise value_error s
object_of too_deep s = raise recursion_error s

-- `b"RWKVSTATE\x01"`
abbrev pub magic : Bytes
magic = 82 ∷ 87 ∷ 75 ∷ 86 ∷ 83 ∷ 84 ∷ 65 ∷ 84 ∷ 69 ∷ 1 ∷ []

abbrev pub max_manifest_bytes : ℕ
max_manifest_bytes = 65536

-- `struct.pack(">I", n)` and `struct.unpack`, of four bytes.
unfoldable pub pack : ℕ → Bytes
pack n = n / 16777216 % 256 ∷ n / 65536 % 256 ∷ n / 256 % 256 ∷ n % 256 ∷ []

unfoldable pub unpack : Bytes → ℕ
unpack (a ∷ b ∷ c ∷ d ∷ _) = ((a * 256 + b) * 256 + c) * 256 + d
unpack _ = 0

module _ ⦃F : Formats⦄ where
  abbrev pub normalized : List (Text × F.Tensor) → List (Text × F.Tensor)
  normalized = map (λ e. (e.0, F.to_cpu e.1))

  abbrev pub document : F.Manifest → List (Text × F.Tensor) → F.Manifest
  document manifest tensors = F.with_names (sorted (names_in tensors)) manifest

  unfoldable pub encode_state_snapshot : F.Manifest → List (Text × F.Tensor) → M (Unit {0}) Bytes
  encode_state_snapshot manifest tensors = do
    raise_if (is_empty tensors) value_error
    raise_if (not (unique_names (names_in tensors)) || any is_bad_name (names_in tensors))
        value_error
    encoded ← or_fail (F.dumps (document manifest tensors)) library_error
    raise_if (ltb max_manifest_bytes (length encoded)) value_error
    saved ← or_fail (F.save (normalized tensors)) library_error
    let body = magic ++ pack (length encoded) ++ encoded ++ saved
    pure (body ++ F.sha256 body)

  unfoldable pub decode_state_snapshot :
      Bytes → ℕ → M (Unit {0}) (F.Manifest × List (Text × F.Tensor))
  decode_state_snapshot payload max_bytes = do
    raise_if (ltb max_bytes 1 || ltb max_bytes (length payload)) value_error
    let header_size = length magic + 4
    raise_if (leb (length payload) (header_size + 32) || not (is_prefix magic payload)) value_error
    let body = take (length payload - 32) payload
    let supplied_digest = drop (length payload - 32) payload
    raise_if (not (same_bytes (F.sha256 body) supplied_digest)) value_error
    let manifest_size = unpack (take 4 (drop (length magic) payload))
    raise_if (ltb manifest_size 2 || ltb max_manifest_bytes manifest_size) value_error
    let manifest_end = header_size + manifest_size
    raise_if (leb (length body) manifest_end) value_error
    manifest ← object_of (F.loads (take manifest_size (drop header_size payload)))
    tensors ← or_fail (F.load (drop manifest_end body)) value_error
    declared ← or_fail (F.names_of manifest) value_error
    raise_if (not (same_names declared (sorted (names_in tensors)))) value_error
    pure (manifest, tensors)

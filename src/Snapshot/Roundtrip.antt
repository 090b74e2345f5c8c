-- ===== src/Snapshot/Roundtrip.antt =====
-- src/rwkv_runtime/state_snapshot.py: what is encoded is decoded.
use rwkv_agent.Base.{
  ℕ, zero, suc, ◌+◌, ◌-◌, ◌≡◌, ◌≤◌, ◌<◌, refl, sym, ap, ◌∙◌, true, false, not, ◌||◌, List, [], ◌∷◌,
  ◌++◌, some, ltb, leb, length, is_empty, any, take, drop, ok, passes, finds, arith, M, ◌>>=◌,
}
use rwkv_agent.Decoding.{Text, is_prefix}
use rwkv_agent.Snapshot.{
  Bytes, same_bytes, unique_names, sorted, same_names, is_bad_name, names_in, Formats, magic,
  max_manifest_bytes, pack, unpack, normalized, document, encode_state_snapshot,
  decode_state_snapshot, Parsed, parsed, object_of, mentions_name, reserved_name,
}

module _ {A : Type 0} where
  take-append : (xs ys : List A) → take (length xs) (xs ++ ys) ≡ xs
  take-append [] ys = refl
  take-append (x ∷ xs) ys = ap (λ zs. x ∷ zs) (take-append xs ys)

  drop-append : (xs ys : List A) → drop (length xs) (xs ++ ys) ≡ ys
  drop-append [] ys = refl
  drop-append (x ∷ xs) ys = drop-append xs ys

  length-append : (xs ys : List A) → length (xs ++ ys) ≡ length xs + length ys
  length-append [] ys = omega arith
  length-append (x ∷ xs) ys = omega (arith, length-append xs ys)

append_assoc : {A : Type 0} (xs ys zs : List A) → (xs ++ ys) ++ zs ≡ xs ++ (ys ++ zs)
append_assoc [] ys zs = refl
append_assoc (x ∷ xs) ys zs = ap (λ ws. x ∷ ws) (append_assoc xs ys zs)

drop_nil : {A : Type 0} (n : ℕ) → drop {A = A} n [] ≡ []
drop_nil zero = refl
drop_nil (suc n) = refl

drop_add : {A : Type 0} (m n : ℕ) (xs : List A) → drop (m + n) xs ≡ drop n (drop m xs)
drop_add zero n xs = let e : 0 + n ≡ n = omega arith in ap (λ k. drop k xs) e
drop_add (suc m) n [] = drop_nil (suc m + n) ∙ sym (drop_nil n)
drop_add (suc m) n (x ∷ xs) =
    let e : suc m + n ≡ suc (m + n) = omega arith in ap (λ k. drop k (x ∷ xs)) e ∙ drop_add m n xs

same_bytes_refl : (b : Bytes) → same_bytes b b ≡ true
unfolding same_bytes
same_bytes_refl [] = refl
same_bytes_refl (c ∷ b) = ground (arith, same_bytes_refl b)

same_names_refl : (ns : List Text) → same_names ns ns ≡ true
unfolding same_names
same_names_refl [] = refl
same_names_refl (n ∷ ns) = ground (arith, same_bytes_refl n, same_names_refl ns)

unpack-pack : (n : ℕ) (rest : Bytes) → n ≤ 65536 → unpack (pack n ++ rest) ≡ n
unfolding unpack pack
unpack-pack n rest le = omega arith

abbrev framed : Bytes → Bytes → Bytes
framed E S = magic ++ pack (length E) ++ E ++ S

-- The parts of a payload, cut where the decoder cuts them.
module _ (E S D : Bytes) (digest : length D ≡ 32) where
  framed-length : length (framed E S) ≡ length magic + 4 + length E + length S
  unfolding pack
  framed-length = omega (
    arith,
    length-append E S,
    length-append (magic ++ pack (length E) ++ E) S,
    length-append (magic ++ pack (length E)) E,
  )

  whole-length : length ((framed E S) ++ D) - 32 ≡ length (framed E S)
  whole-length = omega (arith, length-append (framed E S) D, digest)

  whole-body : take (length ((framed E S) ++ D) - 32) ((framed E S) ++ D) ≡ (framed E S)
  whole-body = ap (λ n. take n ((framed E S) ++ D)) whole-length ∙ take-append (framed E S) D

  whole-digest : drop (length ((framed E S) ++ D) - 32) ((framed E S) ++ D) ≡ D
  whole-digest = ap (λ n. drop n ((framed E S) ++ D)) whole-length ∙ drop-append (framed E S) D

  whole-magic : is_prefix magic ((framed E S) ++ D) ≡ true
  unfolding is_prefix pack
  whole-magic = refl

  whole-size :
      length E ≤ 65536 → unpack (take 4 (drop (length magic) ((framed E S) ++ D))) ≡ length E
  unfolding pack unpack
  whole-size le = unpack-pack (length E) [] le

  whole-manifest : take (length E) (drop (length magic + 4) ((framed E S) ++ D)) ≡ E
  unfolding pack
  whole-manifest = ap (take (length E)) (append_assoc E S D) ∙ take-append E (S ++ D)

  whole-tensors : drop (length magic + 4 + length E) (framed E S) ≡ S
  unfolding pack
  whole-tensors = drop_add (length magic + 4) (length E) (framed E S) ∙ drop-append E S

reads :
    {A C : Type 0} {a : A} (o : Parsed A) (f : A → M (Unit {0}) C)
    → o ≡ parsed a
    → (object_of o >>= f) tt ≡ f a tt
reads o f e = ap (λ p. (object_of p >>= f) tt) e

module _ ⦃F : Formats⦄ where
  -- A payload that has the parts, whole and bounded, is decoded into them.
  decoded :
      (E S : Bytes) (doc : F.Manifest) (tensors : List (Text × F.Tensor)) (max_bytes : ℕ)
      → length E ≤ 65536
      → 2 ≤ length E
      → 0 < length S
      → F.loads E ≡ parsed doc
      → F.load S ≡ some tensors
      → F.names_of doc ≡ some (sorted (names_in tensors))
      → length (framed E S ++ F.sha256 (framed E S)) ≤ max_bytes
      → decode_state_snapshot (framed E S ++ F.sha256 (framed E S)) max_bytes tt
        ≡ ok (doc, tensors) tt
  unfolding decode_state_snapshot
  decoded E S doc tensors max_bytes small big full loads load names fits =
      passes _ _ _ g1
      ∙ passes _ _ _ g2
      ∙ passes _ _ _ g3
      ∙ passes _ _ _ g4
      ∙ passes _ _ _ g5
      ∙ reads _ _ g6
      ∙ finds _ _ _ g7
      ∙ finds _ _ _ names
      ∙ passes _ _ _ g8
    where
      D : Bytes
      D = F.sha256 (framed E S)

      digest : length D ≡ 32
      digest = F.length-sha256 (framed E S)

      size : length (framed E S ++ D) ≡ length magic + 4 + length E + length S + 32
      size = omega (arith, length-append (framed E S) D, digest, framed-length E S D digest)

      g1 : (ltb max_bytes 1 || ltb max_bytes (length (framed E S ++ D))) ≡ false
      g1 = ground (arith, size, fits)

      g2 :
          (leb (length (framed E S ++ D)) (length magic + 4 + 32)
            || not (is_prefix magic (framed E S ++ D)))
          ≡ false
      g2 = ground (arith, size, big, whole-magic E S D digest)

      g3 :
          not (
            same_bytes
              (F.sha256 (take (length (framed E S ++ D) - 32) (framed E S ++ D)))
              (drop (length (framed E S ++ D) - 32) (framed E S ++ D)))
          ≡ false
      g3 = rw (whole-body E S D digest, whole-digest E S D digest, same_bytes_refl D) refl

      g4 :
          (ltb (unpack (take 4 (drop (length magic) (framed E S ++ D)))) 2
            || ltb max_manifest_bytes (unpack (take 4 (drop (length magic) (framed E S ++ D)))))
          ≡ false
      g4 = rw (whole-size E S D digest small) (ground (arith, big, small))

      n : ℕ
      n = unpack (take 4 (drop (length magic) (framed E S ++ D)))

      g5 :
          leb
            (length (take (length (framed E S ++ D) - 32) (framed E S ++ D)))
            (length magic + 4 + n)
          ≡ false
      g5 =
          rw (whole-size E S D digest small, whole-body E S D digest)
            (ground (arith, framed-length E S D digest, full))

      g6 : F.loads (take n (drop (length magic + 4) (framed E S ++ D))) ≡ parsed doc
      g6 = rw (whole-size E S D digest small, whole-manifest E S D digest) loads

      g7 :
          F.load
            (drop (length magic + 4 + n) (take (length (framed E S ++ D) - 32) (framed E S ++ D)))
          ≡ some tensors
      g7 =
          rw (whole-size E S D digest small, whole-body E S D digest, whole-tensors E S D digest)
            load

      g8 : not (same_names (sorted (names_in tensors)) (sorted (names_in tensors))) ≡ false
      g8 = ground (arith, same_names_refl (sorted (names_in tensors)))

  abbrev pub payload_of : Bytes → Bytes → Bytes
  payload_of encoded saved = framed encoded saved ++ F.sha256 (framed encoded saved)

  names_in-normalized : (ts : List (Text × F.Tensor)) → names_in (normalized ts) ≡ names_in ts
  names_in-normalized [] = refl
  names_in-normalized ((n, t) ∷ ts) = ap (λ ns. n ∷ ns) (names_in-normalized ts)

  -- For tensors under distinct names of one to 128 ASCII characters, at least one, none of them named
  -- __metadata__, that safetensors saves, with a document of JSON that is written in at most 65536
  -- bytes, and a payload within the limit of the decoder, the encoding returns, and the decoding
  -- returns the manifest with the sorted names and the tensors on the CPU, as listed.
  pub decode-encode :
      (manifest : F.Manifest) (tensors : List (Text × F.Tensor)) (encoded saved : Bytes)
      (max_bytes : ℕ)
      → is_empty tensors ≡ false
      → unique_names (names_in tensors) ≡ true
      → any is_bad_name (names_in tensors) ≡ false
      → mentions_name reserved_name (names_in tensors) ≡ false
      → F.is_json (document manifest tensors) ≡ true
      → F.dumps (document manifest tensors) ≡ some encoded
      → F.save (normalized tensors) ≡ some saved
      → length encoded ≤ 65536
      → length (payload_of encoded saved) ≤ max_bytes
      → (encode_state_snapshot manifest tensors tt ≡ ok (payload_of encoded saved) tt)
        × (decode_state_snapshot (payload_of encoded saved) max_bytes tt
            ≡ ok (document manifest tensors, F.listed (normalized tensors)) tt)
  unfolding encode_state_snapshot
  decode-encode manifest tensors encoded saved max_bytes some_tensor unique named free plain written
        stored small fits =
      (
        passes _ _ _ some_tensor
            ∙ passes _ _ _ good_names
            ∙ finds _ _ _ written
            ∙ passes _ _ _ bounded
            ∙ finds _ _ _ stored,
        decoded encoded saved doc (F.listed (normalized tensors)) max_bytes small
            (F.length-dumps doc encoded written) (F.length-save (normalized tensors) saved stored)
            (F.loads-dumps doc encoded plain written)
            (F.load-save (normalized tensors) saved (ap unique_names same_names_in ∙ unique)
              (ap (mentions_name reserved_name) same_names_in ∙ free) stored)
            (F.names_of-with_names (sorted (names_in tensors)) manifest ∙ ap some same_sorted) fits,
      )
    where
      doc : F.Manifest
      doc = document manifest tensors

      same_names_in : names_in (normalized tensors) ≡ names_in tensors
      same_names_in = names_in-normalized tensors

      good_names :
          (not (unique_names (names_in tensors)) || any is_bad_name (names_in tensors)) ≡ false
      good_names = rw (unique, named) refl

      bounded : ltb max_manifest_bytes (length encoded) ≡ false
      bounded = ground (arith, small)

      same_sorted : sorted (names_in tensors) ≡ sorted (names_in (F.listed (normalized tensors)))
      same_sorted = sym (F.names-listed (normalized tensors) ∙ ap sorted same_names_in)

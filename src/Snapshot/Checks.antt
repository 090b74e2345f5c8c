-- ===== src/Snapshot/Checks.antt =====
-- src/rwkv_runtime/state_snapshot.py: what a decoded payload is, and how a refusal ends.
use rwkv_agent.Base.{
  ℕ, ◌+◌, ◌-◌, ◌≡◌, ◌≤◌, refl, ap, ◌∙◌, Bool, true, false, not, ◌||◌, List, Option, none, some, ltb,
  leb, length, take, drop, M, Outcome, ok, raise, pure, ◌>>=◌, raise_if, or_fail, value_error,
  recursion_error, ◌⊎◌, inl, inr, arith, [], ◌∷◌,
}
use rwkv_agent.Decoding.{Text, is_prefix}
use rwkv_agent.Snapshot.{
  Bytes, Parsed, parsed, malformed, too_deep, object_of, same_bytes, sorted, same_names, names_in,
  Formats, magic, max_manifest_bytes, unpack, decode_state_snapshot,
}

-- An outcome whose result has a property, or whose error is a ValueError, or a RecursionError under a
-- condition.
abbrev pub Meets : {A : Type 0} → (A → Type 0) → Type 0 → Outcome (Unit {0}) A → Type 0
Meets Q D (ok a s) = Q a
Meets Q D (raise e s) = (e ≡ value_error) ⊎ ((e ≡ recursion_error) × D)

module _ {C : Type 0} (Q : C → Type 0) (D : Type 0) where
  check-Meets :
      (t : Bool) (f : Unit {0} → M (Unit {0}) C)
      → (t ≡ false → Meets Q D (f tt tt))
      → Meets Q D ((raise_if t value_error >>= f) tt)
  check-Meets true f k = inl refl
  check-Meets false f k = k refl

  find-Meets :
      {A : Type 0} (o : Option A) (f : A → M (Unit {0}) C)
      → ((a : A) → o ≡ some a → Meets Q D (f a tt))
      → Meets Q D ((or_fail o value_error >>= f) tt)
  find-Meets none f k = inl refl
  find-Meets (some a) f k = k a refl

  object-Meets :
      {A : Type 0} (o : Parsed A) (f : A → M (Unit {0}) C)
      → (o ≡ too_deep → D)
      → ((a : A) → o ≡ parsed a → Meets Q D (f a tt))
      → Meets Q D ((object_of o >>= f) tt)
  object-Meets (parsed a) f d k = k a refl
  object-Meets malformed f d k = inl refl
  object-Meets too_deep f d k = inr (refl, d refl)

same_bytes-eq : (b c : Bytes) → same_bytes b c ≡ true → b ≡ c
unfolding same_bytes
same_bytes-eq [] [] e = refl
same_bytes-eq [] (c ∷ cs) e = absurd (cc)
same_bytes-eq (b ∷ bs) [] e = absurd (cc)
same_bytes-eq (b ∷ bs) (c ∷ cs) e = ground (arith, e, same_bytes-eq bs cs)

same_names-eq : (ns ms : List Text) → same_names ns ms ≡ true → ns ≡ ms
unfolding same_names
same_names-eq [] [] e = refl
same_names-eq [] (m ∷ ms) e = absurd (cc)
same_names-eq (n ∷ ns) [] e = absurd (cc)
same_names-eq (n ∷ ns) (m ∷ ms) e = ground (arith, e, same_bytes-eq n m, same_names-eq ns ms)

-- The bytes of the manifest, of the size that the header gives, and those between it and the digest.
abbrev pub manifest_bytes : Bytes → Bytes
manifest_bytes payload =
    take (unpack (take 4 (drop (length magic) payload))) (drop (length magic + 4) payload)

abbrev pub tensor_bytes : Bytes → Bytes
tensor_bytes payload =
    drop (length magic + 4 + unpack (take 4 (drop (length magic) payload)))
      (take (length payload - 32) payload)

module _ ⦃F : Formats⦄ where
  -- A payload within the limit, which begins with the mark and ends with the digest of the rest, and
  -- whose header gives a size of at most 64 KiB.
  pub record IsGenuine (payload : Bytes) (max_bytes : ℕ) : Type 0 where
    pub bounded : length payload ≤ max_bytes
    pub marked : is_prefix magic payload ≡ true
    pub digest : F.sha256 (take (length payload - 32) payload) ≡ drop (length payload - 32) payload
    pub small : unpack (take 4 (drop (length magic) payload)) ≤ max_manifest_bytes

  -- The manifest and the tensors that such a payload holds, whose names are those that the manifest
  -- declares.
  pub record IsWhole (payload : Bytes) (max_bytes : ℕ)
      (content : F.Manifest × List (Text × F.Tensor)) : Type 0 where
    pub genuine : IsGenuine payload max_bytes
    pub manifest : F.loads (manifest_bytes payload) ≡ parsed content.0
    pub tensors : F.load (tensor_bytes payload) ≡ some content.1
    pub declared : F.names_of content.0 ≡ some (sorted (names_in content.1))

  -- The decoder returns only when the payload is within the limit, begins with the mark, ends with the
  -- digest of the rest, and holds the manifest and the tensors returned, whose sorted names the
  -- manifest declares. Else it raises a ValueError, or a RecursionError, and this only for a payload
  -- that passes the checks of limit, mark and digest and whose manifest is nested too deep for json.
  pub decode-IsWhole :
      (payload : Bytes) (max_bytes : ℕ)
      → Meets
          (IsWhole payload max_bytes)
          (IsGenuine payload max_bytes × (F.loads (manifest_bytes payload) ≡ too_deep))
          (decode_state_snapshot payload max_bytes tt)
  unfolding decode_state_snapshot
  decode-IsWhole payload max_bytes =
      let Q = IsWhole payload max_bytes in
      let D = IsGenuine payload max_bytes × (F.loads (manifest_bytes payload) ≡ too_deep) in
      let header_size = length magic + 4 in
      let body = take (length payload - 32) payload in
      let supplied = drop (length payload - 32) payload in
      let size = unpack (take 4 (drop (length magic) payload)) in
      check-Meets Q D (ltb max_bytes 1 || ltb max_bytes (length payload)) _ λ fits.
        check-Meets Q D (leb (length payload) (header_size + 32) || not (is_prefix magic payload)) _
          λ marked. check-Meets Q D (not (same_bytes (F.sha256 body) supplied)) _ λ digest.
            check-Meets Q D (ltb size 2 || ltb max_manifest_bytes size) _ λ small.
              let genuine : IsGenuine payload max_bytes = record {
                bounded = ground (arith, fits);
                marked = ground (arith, marked);
                digest = same_bytes-eq (F.sha256 body) supplied (ground (arith, digest));
                small = ground (arith, small);
              } in
              check-Meets Q D (leb (length body) (header_size + size)) _ λ _.
                object-Meets Q D (F.loads (manifest_bytes payload)) _ (λ deep. (genuine, deep))
                  λ manifest read.
                    find-Meets Q D (F.load (tensor_bytes payload)) _ λ tensors loaded.
                      find-Meets Q D (F.names_of manifest) _ λ names declared.
                        check-Meets Q D (not (same_names names (sorted (names_in tensors))))
                          (λ _. pure (manifest, tensors))
                          λ same. record {
                            genuine = genuine;
                            manifest = read;
                            tensors = loaded;
                            declared =
                                declared
                                ∙ ap some (
                                    same_names-eq names (sorted (names_in tensors))
                                      (ground (arith, same)));
                          }

-- ===== src/Examples/Codec.antt =====
-- A file format to run the snapshot codec on: a list of names is their characters, each raised by one,
-- with a zero after each name.
use rwkv_agent.Base.{
  ℕ, zero, suc, ◌≡◌, ◌≤◌, ◌<◌, refl, sym, subst, ap, ◌∙◌, if◌then◌else◌, true, false, raise,
  recursion_error, List, [], ◌∷◌, ◌++◌, map, Option, none, some, length, replicate,
  length-replicate, arith, ok,
}
use rwkv_agent.Decoding.{Text, text_le, is_prefix}
use rwkv_agent.Snapshot.{
  Bytes, Formats, encode_state_snapshot, decode_state_snapshot, document, sorted, insert_name,
  unique_names, mentions_name, same_bytes, pack, unpack, names_in, reserved_name, Parsed, parsed,
  malformed, too_deep,
}
use rwkv_agent.Examples.Machine.{some_inj}
use rwkv_agent.Snapshot.Roundtrip.{decode-encode, payload_of}
use rwkv_agent.Snapshot.Checks.{IsGenuine, IsWhole, Meets, manifest_bytes, decode-IsWhole}

unfoldable encode_names : List Text → Bytes
encode_names [] = []
encode_names (n ∷ ns) = map suc n ++ 0 ∷ encode_names ns

abbrev grow : ℕ → List Text → List Text
grow c [] = (c ∷ []) ∷ []
grow c (n ∷ ns) = (c ∷ n) ∷ ns

unfoldable decode_names : Bytes → List Text
decode_names [] = []
decode_names (zero ∷ bs) = [] ∷ decode_names bs
decode_names (suc c ∷ bs) = grow c (decode_names bs)

decode_names-name :
    (n : Text) (bs : Bytes) → decode_names (map suc n ++ 0 ∷ bs) ≡ n ∷ decode_names bs
unfolding decode_names
decode_names-name [] bs = refl
decode_names-name (c ∷ n) bs = ap (grow c) (decode_names-name n bs)

decode_names-encode_names : (ns : List Text) → decode_names (encode_names ns) ≡ ns
unfolding encode_names decode_names
decode_names-encode_names [] = refl
decode_names-encode_names (n ∷ ns) =
    decode_names-name n (encode_names ns) ∙ ap (λ ms. n ∷ ms) (decode_names-encode_names ns)

-- A tensor is a number, put before its name.
abbrev tagged : List (Text × ℕ) → List Text
tagged = map (λ e. e.1 ∷ e.0)

unfoldable untagged : List Text → List (Text × ℕ)
untagged [] = []
untagged ([] ∷ ns) = untagged ns
untagged ((t ∷ n) ∷ ns) = (n, t) ∷ untagged ns

untagged-tagged : (ts : List (Text × ℕ)) → untagged (tagged ts) ≡ ts
unfolding untagged
untagged-tagged [] = refl
untagged-tagged ((n, t) ∷ ts) = ap (λ us. (n, t) ∷ us) (untagged-tagged ts)

-- A document is the two characters of an empty object, with its names after them; a zero in the
-- second place stands for one that is nested too deep.
abbrev parse : Bytes → Parsed (List Text)
parse (_ ∷ suc _ ∷ bs) = parsed (decode_names bs)
parse (_ ∷ zero ∷ bs) = too_deep
parse _ = malformed

-- A file that names the reserved name is not read.
abbrev read_file : List (Text × ℕ) → Option (List (Text × ℕ))
read_file ts = if mentions_name reserved_name (names_in ts) then none else some ts

abbrev load_file : Bytes → Option (List (Text × ℕ))
load_file [] = none
load_file (_ ∷ bs) = read_file (untagged (decode_names bs))

abbrev saved_as : List (Text × ℕ) → Bytes
saved_as ts = 8 ∷ encode_names (tagged ts)

abbrev written_as : List Text → Bytes
written_as m = 123 ∷ 125 ∷ encode_names m

load-saved :
    (ts : List (Text × ℕ))
    → mentions_name reserved_name (names_in ts) ≡ false
    → load_file (saved_as ts) ≡ some ts
load-saved ts free =
    ap (λ ns. read_file (untagged ns)) (decode_names-encode_names (tagged ts))
    ∙ ap read_file (untagged-tagged ts)
    ∙ (rw free refl)

numbers-load-save :
    (ts : List (Text × ℕ)) (b : Bytes)
    → mentions_name reserved_name (names_in ts) ≡ false
    → some (saved_as ts) ≡ some b
    → load_file b ≡ some ts
numbers-load-save ts b free e = ap load_file (sym (some_inj e)) ∙ load-saved ts free

numbers-loads-dumps :
    (m : List Text) (b : Bytes) → some (written_as m) ≡ some b → parse b ≡ parsed m
numbers-loads-dumps m b e = ap parse (sym (some_inj e)) ∙ ap parsed (decode_names-encode_names m)

abbrev numbers : Formats
numbers = record {
  Tensor = ℕ;
  Manifest = List Text;
  to_cpu = λ t. t;
  with_names = λ ns m. ns;
  names_of = λ m. some m;
  is_json = λ m. true;
  dumps = λ m. some (written_as m);
  loads = parse;
  save = λ ts. some (saved_as ts);
  load = load_file;
  listed = λ ts. ts;
  sha256 = λ b. replicate 32 (length b);
  length-sha256 = λ b. length-replicate {A = ℕ} 32 (length b);
  names_of-with_names = λ ns m. refl;
  loads-dumps = λ m b plain e. numbers-loads-dumps m b e;
  length-dumps = λ m b e. subst (λ c. 2 ≤ length c) (some_inj e) (omega arith);
  load-save = λ ts b unique free e. numbers-load-save ts b free e;
  length-save = λ ts b e. subst (λ c. 0 < length c) (some_inj e) (omega arith);
  names-listed = λ ts. refl;
}

-- "b" and "a".
abbrev two_tensors : List (Text × ℕ)
two_tensors = (98 ∷ [], 5) ∷ (97 ∷ [], 7) ∷ []

abbrev two_names : Bytes
two_names = written_as ((97 ∷ []) ∷ (98 ∷ []) ∷ [])

abbrev two_payload : Bytes
two_payload = payload_of ⦃F = numbers⦄ two_names (saved_as two_tensors)

decode-encode_example :
    (encode_state_snapshot ⦃F = numbers⦄ [] two_tensors tt ≡ ok two_payload tt)
    × (decode_state_snapshot ⦃F = numbers⦄ two_payload 100 tt
        ≡ ok (document ⦃F = numbers⦄ [] two_tensors, two_tensors) tt)
unfolding encode_names sorted insert_name unique_names mentions_name same_bytes pack text_le
decode-encode_example =
    decode-encode ⦃F = numbers⦄ [] two_tensors two_names (saved_as two_tensors) 100 refl refl refl
      refl refl refl refl (omega arith) (omega arith)

decode-IsWhole_example :
    Meets
      (IsWhole ⦃F = numbers⦄ two_payload 100)
      (IsGenuine ⦃F = numbers⦄ two_payload 100 × (parse (manifest_bytes two_payload) ≡ too_deep))
      (decode_state_snapshot ⦃F = numbers⦄ two_payload 100 tt)
decode-IsWhole_example = decode-IsWhole ⦃F = numbers⦄ two_payload 100

-- A genuine payload whose manifest is nested too deep ends the decoder with a RecursionError.
abbrev deep_payload : Bytes
deep_payload = payload_of ⦃F = numbers⦄ (123 ∷ 0 ∷ []) (saved_as two_tensors)

decode-deep : decode_state_snapshot ⦃F = numbers⦄ deep_payload 100 tt ≡ raise recursion_error tt
unfolding decode_state_snapshot encode_names same_bytes pack unpack is_prefix
decode-deep = refl

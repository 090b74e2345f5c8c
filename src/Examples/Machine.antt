-- ===== src/Examples/Machine.antt =====
-- A backend to run the model on: a batch is its size with its rows, and a row is the list of the
-- tokens that it has seen.
use rwkv_agent.Base.{
  ℕ, zero, suc, ◌+◌, ◌==◌, ◌≡◌, refl, ap, sym, ◌∙◌, Bool, true, List, [], ◌∷◌, ◌++◌, Option, some,
  none, get_elem?, get_or, contains, length, if◌then◌else◌, NotIn, AllDistinct, contains-NotIn,
  ne_of_NotIn, arith, ℤ, pos,
}
use rwkv_agent.Backend.{Backend}

abbrev pub Row : Type 0
Row = List ℤ

abbrev pub Rows : Type 0
Rows = ℕ × (ℕ → Row)

pub some_inj {ℓ} : {A : Type ℓ} {x y : A} → some x ≡ some y → x ≡ y
some_inj {x = x} e = ap (λ o. elim o [ none ↦ x | some z ↦ z ]) e

-- The place of an index among the indices.
unfoldable pub index_of : ℕ → List ℕ → Option ℕ
index_of i [] = none
index_of i (j ∷ js) =
    let rest = index_of i js in
    if i == j then some 0 else elim rest [ none ↦ none | some k ↦ some (suc k) ]

abbrev pub put_row : Option ℕ → ℕ → Rows → Rows → Row
put_row none i s b = b.1 i
put_row (some k) i s b = s.1 k

unfoldable pub copy_rows : List ℕ → Rows → Rows → Rows
unfolding index_of
copy_rows is s b = (b.0, λ i. put_row (index_of i is) i s b)

unfoldable pub scores_from : ℕ → List Row → Rows → List Row
scores_from start [] b = []
scores_from start (ts ∷ rows) b = (b.1 start ++ ts) ∷ scores_from (suc start) rows b

index_of-named :
    (is : List ℕ) (k i : ℕ) → AllDistinct is → get_elem? is k ≡ some i → index_of i is ≡ some k
unfolding index_of
index_of-named [] k i d e = absurd (ground (arith, e))
index_of-named (j ∷ is) zero i d e = ground (arith, e)
index_of-named (j ∷ is) (suc k) i d e =
    ground (arith, index_of-named is k i d.1 e, ne_of_NotIn j is d.0 k i e)

index_of-other : (is : List ℕ) (i : ℕ) → NotIn i is → index_of i is ≡ none
unfolding index_of
index_of-other [] i n = refl
index_of-other (j ∷ is) i n = ground (arith, n.0, index_of-other is i n.1)

contains-named : (is : List ℕ) (k i : ℕ) → get_elem? is k ≡ some i → contains i is ≡ true
contains-named [] k i e = absurd (ground (arith, e))
contains-named (j ∷ is) zero i e = ground (arith, e)
contains-named (j ∷ is) (suc k) i e = ground (arith, contains-named is k i e)

scores_from-get :
    (rows : List Row) (start k : ℕ) (b : Rows) (ts : Row)
    → get_elem? rows k ≡ some ts
    → get_elem? (scores_from start rows b) k ≡ some (b.1 (start + k) ++ ts)
unfolding scores_from
scores_from-get [] start k b ts e = absurd (ground (arith, e))
scores_from-get (x ∷ rows) start zero b ts e =
    ap some (ap (λ t. b.1 start ++ t) (some_inj e) ∙ ap (λ n. b.1 n ++ ts) (omega arith))
scores_from-get (x ∷ rows) start (suc k) b ts e =
    scores_from-get rows (suc start) k b ts e ∙ ap (λ n. some (b.1 n ++ ts)) (omega arith)

pub get_or-get {ℓ} :
    {A : Type ℓ} (xs : List A) (k : ℕ) (x d : A) → get_elem? xs k ≡ some x → get_or xs k d ≡ x
get_or-get [] k x d e = absurd (ground (arith, e))
get_or-get (y ∷ xs) zero x d e = some_inj e
get_or-get (y ∷ xs) (suc k) x d e = get_or-get xs k x d e

pub copy_rows-size : (is : List ℕ) (s b : Rows) → (copy_rows is s b).0 ≡ b.0
unfolding copy_rows
copy_rows-size is s b = refl

pub copy_rows-named :
    (is : List ℕ) (s b : Rows) (k i : ℕ)
    → AllDistinct is
    → get_elem? is k ≡ some i
    → (copy_rows is s b).1 i ≡ s.1 k
unfolding copy_rows
copy_rows-named is s b k i d e = ap (λ o. put_row o i s b) (index_of-named is k i d e)

pub copy_rows-other :
    (is : List ℕ) (s b : Rows) (i : ℕ) → NotIn i is → (copy_rows is s b).1 i ≡ b.1 i
unfolding copy_rows
copy_rows-other is s b i out = ap (λ o. put_row o i s b) (index_of-other is i out)

abbrev pub zero_rows : List ℕ → Rows → Rows
zero_rows is b = (b.0, λ i. if contains i is then [] else b.1 i)

pub zero_rows-named :
    (is : List ℕ) (b : Rows) (k i : ℕ) → get_elem? is k ≡ some i → (zero_rows is b).1 i ≡ []
zero_rows-named is b k i e = ap (λ (t : Bool). if t then [] else b.1 i) (contains-named is k i e)

pub zero_rows-other : (is : List ℕ) (b : Rows) (i : ℕ) → NotIn i is → (zero_rows is b).1 i ≡ b.1 i
zero_rows-other is b i out = ap (λ (t : Bool). if t then [] else b.1 i) (contains-NotIn i is out)

pub scores_from-first :
    (rows : List Row) (k : ℕ) (b : Rows) (ts : Row)
    → get_elem? rows k ≡ some ts
    → get_elem? (scores_from 0 rows b) k ≡ some (b.1 k ++ ts)
scores_from-first rows k b ts e =
    scores_from-get rows 0 k b ts e ∙ ap (λ n. some (b.1 n ++ ts)) (omega arith)

abbrev pub machine : Backend
machine = record {
  Batch = Rows;
  Row = Row;
  Logits = Row;
  Score = ℤ;
  size = λ b. b.0;
  row = λ b i. b.1 i;
  zero_row = [];
  zero_state = λ n. (n, λ i. []);
  index_fill = zero_rows;
  index_select = λ is b. (length is, λ k. b.1 (get_or is k 0));
  index_copy = copy_rows;
  expand = λ r n. (n, λ i. r);
  narrow = λ start n b. (n, λ k. b.1 (start + k));
  is_contiguous = λ b. true;
  Tokens = List (List ℤ);
  vocabulary = 16;
  token_tensor = λ rows. some rows;
  forward = λ rows b. (some (scores_from 0 rows b), (b.0, λ k. b.1 k ++ get_or rows k []));
  advance = λ ts r. r ++ ts;
  score = λ ts r. r ++ ts;
  argmax = λ l. length l;
  item = λ l token. pos (length l);
  is_finite = λ x. true;
  draw = λ seed tokens l. (length l, suc seed);
  size-zero_state = λ n. refl;
  row-zero_state = λ n i inside. refl;
  size-index_fill = λ is b. refl;
  row-index_fill_named = λ is b k i e inside. zero_rows-named is b k i e;
  row-index_fill_other = zero_rows-other;
  size-index_select = λ is b. refl;
  row-index_select = λ is b k i e inside. ap b.1 (get_or-get is k i 0 e);
  size-index_copy = copy_rows-size;
  row-index_copy_named = λ is s b k i d e inside. copy_rows-named is s b k i d e;
  row-index_copy_other = copy_rows-other;
  size-expand = λ r n. refl;
  row-expand = λ r n k inside. refl;
  size-narrow = λ start n b. refl;
  row-narrow = λ start n k b inside within. refl;
  size-forward = λ rows b. refl;
  token_tensor-rectangle = λ n rows shape. (rows, refl);
  forward-rectangle = λ n rows tokens b full shape made fits. (scores_from 0 tokens b, refl);
  row-forward = λ n rows tokens b k ts full shape made fits e.
      ap (λ t. b.1 k ++ t)
        (get_or-get tokens k ts [] (ap (λ r. get_elem? r k) (sym (some_inj made)) ∙ e));
  logits-forward = λ n rows tokens b logits k ts full shape made fits out e.
      ap (λ ls. get_elem? ls k) (sym (some_inj out))
      ∙ scores_from-first tokens k b ts (ap (λ r. get_elem? r k) (sym (some_inj made)) ∙ e);
}

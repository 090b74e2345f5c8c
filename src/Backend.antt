-- ===== src/Backend.antt =====
-- What the serving core takes from PyTorch and the loaded model: batched recurrent state as a value
-- with one row for each request, the indexed copies, and the model's forward call.
use rwkv_agent.Base.{
  ℕ, ◌+◌, ◌≤◌, ◌<◌, ◌≡◌, ◌==◌, Bool, true, false, ◌&&◌, List, [], ◌∷◌, get_elem?, Option, some, ltb,
  length, ℤ, pos, negsuc, NotIn, AllDistinct,
}

-- A token of a vocabulary of that size.
abbrev pub is_token : ℕ → ℤ → Bool
is_token vocabulary (pos n) = ltb n vocabulary
is_token vocabulary (negsuc n) = false

unfoldable pub are_tokens : ℕ → List ℤ → Bool
are_tokens vocabulary [] = true
are_tokens vocabulary (t ∷ ts) = is_token vocabulary t && are_tokens vocabulary ts

-- Rows of n tokens each.
unfoldable pub is_rectangle : ℕ → ℕ → List (List ℤ) → Bool
is_rectangle vocabulary n [] = true
is_rectangle vocabulary n (ts ∷ rows) =
    (length ts == n) && are_tokens vocabulary ts && is_rectangle vocabulary n rows

-- A `Batch` is the list of shift, WKV and elapsed tensors, in either layout; `row b i` is what they
-- hold for batch index `i`.
pub record Backend : Type 1 where
  pub Batch : Type 0
  pub Row : Type 0
  pub Logits : Type 0
  pub Score : Type 0
  pub size : Batch → ℕ
  pub row : Batch → ℕ → Row
  pub zero_row : Row
  pub zero_state : ℕ → Batch
  pub index_fill : List ℕ → Batch → Batch
  pub index_select : List ℕ → Batch → Batch
  pub index_copy : List ℕ → Batch → Batch → Batch
  pub expand : Row → ℕ → Batch
  pub narrow : ℕ → ℕ → Batch → Batch
  pub is_contiguous : Batch → Bool
  pub Tokens : Type 0
  pub vocabulary : ℕ
  -- `torch.tensor(rows, dtype=torch.long)`, or nothing where it raises.
  pub token_tensor : List (List ℤ) → Option Tokens
  -- The logits, or nothing where the call raises, and what it leaves in the batch.
  pub forward : Tokens → Batch → Option (List Logits) × Batch
  pub advance : List ℤ → Row → Row
  pub score : List ℤ → Row → Logits
  pub argmax : Logits → ℕ
  -- `float(logits[token].item())` and `math.isfinite`.
  pub item : Logits → ℤ → Score
  pub is_finite : Score → Bool
  -- `_sample_logits` from the generator's state: the token, and the state that follows.
  pub draw : ℕ → List ℤ → Logits → ℕ × ℕ
  -- `zero_state(n)` has n zero rows.
  pub size-zero_state : (n : ℕ) → size (zero_state n) ≡ n
  pub row-zero_state : (n i : ℕ) → i < n → row (zero_state n) i ≡ zero_row
  -- `index_fill_(dim, indices, 0)` zeroes the rows that the indices name, and those only.
  pub size-index_fill : (is : List ℕ) (b : Batch) → size (index_fill is b) ≡ size b
  pub row-index_fill_named :
      (is : List ℕ) (b : Batch) (k i : ℕ)
      → get_elem? is k ≡ some i
      → i < size b
      → row (index_fill is b) i ≡ zero_row
  pub row-index_fill_other :
      (is : List ℕ) (b : Batch) (i : ℕ) → NotIn i is → row (index_fill is b) i ≡ row b i
  -- `index_select(source, dim, indices)` has the named rows in the order of the indices.
  pub size-index_select : (is : List ℕ) (b : Batch) → size (index_select is b) ≡ length is
  pub row-index_select :
      (is : List ℕ) (b : Batch) (k i : ℕ)
      → get_elem? is k ≡ some i
      → i < size b
      → row (index_select is b) k ≡ row b i
  -- `target.index_copy_(dim, indices, source)`, for distinct indices.
  pub size-index_copy : (is : List ℕ) (s b : Batch) → size (index_copy is s b) ≡ size b
  pub row-index_copy_named :
      (is : List ℕ) (s b : Batch) (k i : ℕ)
      → AllDistinct is
      → get_elem? is k ≡ some i
      → i < size b
      → row (index_copy is s b) i ≡ row s k
  pub row-index_copy_other :
      (is : List ℕ) (s b : Batch) (i : ℕ) → NotIn i is → row (index_copy is s b) i ≡ row b i
  -- `row.expand(n)` repeats one row, and a slice `[start : start + n]` takes n rows.
  pub size-expand : (r : Row) (n : ℕ) → size (expand r n) ≡ n
  pub row-expand : (r : Row) (n k : ℕ) → k < n → row (expand r n) k ≡ r
  pub size-narrow : (start n : ℕ) (b : Batch) → size (narrow start n b) ≡ n
  pub row-narrow :
      (start n k : ℕ) (b : Batch)
      → k < n
      → start + k < size b
      → row (narrow start n b) k ≡ row b (start + k)
  -- Rows of as many tokens each make a tensor, and the model takes it with one row of state for each
  -- row of tokens. The rows do not interact: each is advanced by its own tokens.
  pub size-forward : (tokens : Tokens) (b : Batch) → size (forward tokens b).1 ≡ size b
  pub token_tensor-rectangle :
      (n : ℕ) (rows : List (List ℤ))
      → is_rectangle vocabulary n rows ≡ true
      → (tokens : Tokens) × (token_tensor rows ≡ some tokens)
  pub forward-rectangle :
      (n : ℕ) (rows : List (List ℤ)) (tokens : Tokens) (b : Batch)
      → 1 ≤ n
      → is_rectangle vocabulary n rows ≡ true
      → token_tensor rows ≡ some tokens
      → size b ≡ length rows
      → (logits : List Logits) × ((forward tokens b).0 ≡ some logits)
  pub row-forward :
      (n : ℕ) (rows : List (List ℤ)) (tokens : Tokens) (b : Batch) (k : ℕ) (ts : List ℤ)
      → 1 ≤ n
      → is_rectangle vocabulary n rows ≡ true
      → token_tensor rows ≡ some tokens
      → size b ≡ length rows
      → get_elem? rows k ≡ some ts
      → row (forward tokens b).1 k ≡ advance ts (row b k)
  pub logits-forward :
      (n : ℕ) (rows : List (List ℤ)) (tokens : Tokens) (b : Batch) (logits : List Logits) (k : ℕ)
      (ts : List ℤ)
      → 1 ≤ n
      → is_rectangle vocabulary n rows ≡ true
      → token_tensor rows ≡ some tokens
      → size b ≡ length rows
      → (forward tokens b).0 ≡ some logits
      → get_elem? rows k ≡ some ts
      → get_elem? logits k ≡ some (score ts (row b k))

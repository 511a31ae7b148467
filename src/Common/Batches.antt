-- ===== src/Common/Batches.antt =====
-- libs/common/src/utils/async.utils.ts: tasks in batches, with a hook after each batch. A task gives a
-- settled result and the next state; the tasks of a batch run one after another. The hook changes
-- nothing of the state, and can fail.
use ether_trade.Prelude.{
  ℕ, zero, suc, ◌-◌, ◌≤◌, ◌<◌, ◌≡◌, refl, ap, ◌∙◌, Bool, true, Option, none, some, List, [], ◌∷◌,
  ◌++◌, if◌then◌else◌, leb, length, take, drop, arith, inl, inr, Bool-cases,
}

module _ {A : Type 0} where
  -- The loop of `chunkArray`; the length of the list is fuel enough.
  unfoldable pub chunks : ℕ → ℕ → List A → List (List A)
  chunks zero size items = []
  chunks (suc fuel) size [] = []
  chunks (suc fuel) size (x ∷ xs) = take size (x ∷ xs) ∷ chunks fuel size (drop size (x ∷ xs))

  -- An error for a size of zero.
  unfoldable pub chunk_array : ℕ → List A → Option (List (List A))
  unfolding chunks
  chunk_array size items = if leb size 0 then none else some (chunks (length items) size items)

module _ {R S : Type 0} where
  abbrev pub prepend : List R → Option (List R) × S → Option (List R) × S
  prepend rs (none, s) = (none, s)
  prepend rs (some rest, s) = (some (rs ++ rest), s)

  prepend-state : (rs : List R) (z : Option (List R) × S) → (prepend rs z).1 ≡ z.1
  prepend-state rs (none, s) = refl
  prepend-state rs (some rest, s) = refl

module _ {A R S : Type 0} where
  -- `await Promise.allSettled(batch.map(task))`
  unfoldable pub run_all : (A → S → R × S) → List A → S → List R × S
  run_all task [] s = ([], s)
  run_all task (x ∷ xs) s =
      let (r, s1) = task x s in let (rs, s2) = run_all task xs s1 in (r ∷ rs, s2)

  -- The loop over the batches; `hook n` is whether the hook of the n-th succeeds.
  unfoldable pub run_chunks :
      (A → S → R × S) → (ℕ → Bool) → ℕ → List (List A) → S → Option (List R) × S
  unfolding run_all
  run_chunks task hook n [] s = (some [], s)
  run_chunks task hook n (c ∷ cs) s =
      let rest = run_chunks task hook (suc n) cs (run_all task c s).1 in
      if hook n then prepend (run_all task c s).0 rest else (none, (run_all task c s).1)

  abbrev pub run_chunked :
      (A → S → R × S) → (ℕ → Bool) → Option (List (List A)) → S → Option (List R) × S
  run_chunked task hook none s = (none, s)
  run_chunked task hook (some cs) s = run_chunks task hook 0 cs s

  -- `executeInBatches`, with nothing if it throws.
  unfoldable pub execute_in_batches :
      ℕ → (A → S → R × S) → (ℕ → Bool) → List A → S → Option (List R) × S
  unfolding chunk_array run_chunks
  execute_in_batches size task hook items s = run_chunked task hook (chunk_array size items) s

-- The batches one after another are the list.
abbrev pub concat : {A : Type 0} → List (List A) → List A
concat [] = []
concat (c ∷ cs) = c ++ concat cs

take-drop : {A : Type 0} (n : ℕ) (xs : List A) → take n xs ++ drop n xs ≡ xs
take-drop zero xs = refl
take-drop (suc n) [] = refl
take-drop (suc n) (x ∷ xs) = ap (λ ys. x ∷ ys) (take-drop n xs)

length-drop : {A : Type 0} (n : ℕ) (xs : List A) → length (drop n xs) ≡ length xs - n
length-drop zero xs = omega arith
length-drop (suc n) [] = omega arith
length-drop (suc n) (x ∷ xs) = omega (arith, length-drop n xs)

chunks-concat :
    {A : Type 0} (fuel size : ℕ) (items : List A)
    → 0 < size
    → length items ≤ fuel
    → concat (chunks fuel size items) ≡ items
unfolding chunks
chunks-concat zero size [] pos h = refl
chunks-concat zero size (x ∷ xs) pos h = absurd (omega arith)
chunks-concat (suc fuel) size [] pos h = refl
chunks-concat (suc fuel) size (x ∷ xs) pos h =
    ap (λ ys. take size (x ∷ xs) ++ ys)
      (chunks-concat fuel size (drop size (x ∷ xs)) pos (omega (arith, length-drop size (x ∷ xs))))
    ∙ take-drop size (x ∷ xs)

module _ {A R S : Type 0} (task : A → S → R × S) where
  run_all-append_state :
      (xs ys : List A) (s : S)
      → (run_all task (xs ++ ys) s).1 ≡ (run_all task ys (run_all task xs s).1).1
  unfolding run_all
  run_all-append_state [] ys s = refl
  run_all-append_state (x ∷ xs) ys s = run_all-append_state xs ys (task x s).1

  run_all-append_results :
      (xs ys : List A) (s : S)
      → (run_all task (xs ++ ys) s).0
        ≡ (run_all task xs s).0 ++ (run_all task ys (run_all task xs s).1).0
  unfolding run_all
  run_all-append_results [] ys s = refl
  run_all-append_results (x ∷ xs) ys s =
      ap (λ rs. (task x s).0 ∷ rs) (run_all-append_results xs ys (task x s).1)

  run_chunks_lem :
      (hook : ℕ → Bool) (n : ℕ) (cs : List (List A)) (s : S)
      → ((k : ℕ) → hook k ≡ true)
      → run_chunks task hook n cs s
        ≡ (some (run_all task (concat cs) s).0, (run_all task (concat cs) s).1)
  unfolding run_chunks run_all
  run_chunks_lem hook n [] s well = refl
  run_chunks_lem hook n (c ∷ cs) s well = rw (
    well n,
    run_chunks_lem hook (suc n) cs (run_all task c s).1 well,
    run_all-append_state c (concat cs) s,
    run_all-append_results c (concat cs) s,
  )

  pub execute_in_batches_lem :
      (size : ℕ) (hook : ℕ → Bool) (items : List A) (s : S)
      → 0 < size
      → ((k : ℕ) → hook k ≡ true)
      → execute_in_batches size task hook items s
        ≡ (some (run_all task items s).0, (run_all task items s).1)
  unfolding execute_in_batches chunk_array
  execute_in_batches_lem size hook items s pos well = elim (Bool-cases (leb size 0)) [
    | inl empty ↦ absurd (ground arith)
    | inr full ↦ rw full (
        run_chunks_lem hook 0 (chunks (length items) size items) s well
        ∙ rw (chunks-concat (length items) size items pos (omega arith)))
  ]

  -- What every task keeps, a run in batches keeps, also when it is cut short.
  pub run_all-keeps {κ} :
      (P : S → Type κ) (items : List A) (s : S)
      → ((x : A) (t : S) → P t → P (task x t).1)
      → P s
      → P (run_all task items s).1
  unfolding run_all
  run_all-keeps P [] s keep h = h
  run_all-keeps P (x ∷ xs) s keep h = run_all-keeps P xs (task x s).1 keep (keep x s h)

  run_chunks-keeps {κ} :
      (P : S → Type κ) (hook : ℕ → Bool) (n : ℕ) (cs : List (List A)) (s : S)
      → ((x : A) (t : S) → P t → P (task x t).1)
      → P s
      → P (run_chunks task hook n cs s).1
  unfolding run_chunks
  run_chunks-keeps P hook n [] s keep h = h
  run_chunks-keeps P hook n (c ∷ cs) s keep h =
      let here = run_all-keeps P c s keep h in
      elim (Bool-cases (hook n)) [
        | inr cut ↦ rw cut here
        | inl well ↦
            rw
              (
                well,
                prepend-state (run_all task c s).0
                    (run_chunks task hook (suc n) cs (run_all task c s).1),
              )
              (run_chunks-keeps P hook (suc n) cs (run_all task c s).1 keep here)
      ]

  pub execute_in_batches-keeps {κ} :
      (P : S → Type κ) (size : ℕ) (hook : ℕ → Bool) (items : List A) (s : S)
      → ((x : A) (t : S) → P t → P (task x t).1)
      → P s
      → P (execute_in_batches size task hook items s).1
  unfolding execute_in_batches chunk_array
  execute_in_batches-keeps P size hook items s keep h = elim (Bool-cases (leb size 0)) [
    | inl empty ↦ rw empty h
    | inr full ↦ rw full (run_chunks-keeps P hook 0 (chunks (length items) size items) s keep h)
  ]

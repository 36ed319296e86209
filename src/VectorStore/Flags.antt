-- ===== src/VectorStore/Flags.antt =====
-- The live flags and the free list: the free slots are exactly the ones whose flag is not set.
use pomaisearch.Base.{
  ℕ, zero, suc, ◌+◌, ◌-◌, ◌<◌, ◌≡◌, ◌≢◌, refl, sym, ap, ◌∙◌, List, [], ◌∷◌, ◌++◌, some, arith, ◌==◌,
  if◌then◌else◌, length, get_or, set, length-append, length-set, get_or-set_self, get_or-set_ne,
  get_or-append_left,
}
use pomaisearch.Base.All.{All, All-map, All-append, All-zip, Distinct, Distinct-append_end}
use pomaisearch.Base.Back.{
  front, pop_back, All-front, All-pop_back, Distinct-pop_back, pop_back-ne, length-pop_back,
}

-- The slot is known and its flag is not set.
abbrev pub IsDead : List ℕ → ℕ → Type 0
IsDead live slot = (slot < length live) × (get_or live slot 0 ≡ 0)

-- The flags that are set.
abbrev pub count_live : List ℕ → ℕ
count_live [] = 0
count_live (x ∷ xs) = (if x == 0 then 0 else 1) + count_live xs

pub record Balanced (live free : List ℕ) (count : ℕ) : Type 0 where
  pub counted : count ≡ count_live live
  pub free_dead : All (IsDead live) free
  pub free_once : Distinct free
  pub all_free : length free + count ≡ length live

count_live-append : (xs ys : List ℕ) → count_live (xs ++ ys) ≡ count_live xs + count_live ys
count_live-append [] ys = omega arith
count_live-append (x ∷ xs) ys = omega (arith, count_live-append xs ys)

count_live-set :
    (live : List ℕ) (i : ℕ) → IsDead live i → count_live (set live i 1) ≡ count_live live + 1
count_live-set [] i d = absurd (omega arith)
count_live-set (x ∷ xs) zero d = ground arith
count_live-set (x ∷ xs) (suc i) d = omega (arith, count_live-set xs i (omega arith, d.1))

count_live-clear :
    (live : List ℕ) (i : ℕ)
    → i < length live
    → get_or live i 0 ≢ 0
    → count_live (set live i 0) + 1 ≡ count_live live
count_live-clear [] i h e = elim h [ ]
count_live-clear (x ∷ xs) zero h e = ground arith
count_live-clear (x ∷ xs) (suc i) h e = omega (arith, count_live-clear xs i (omega arith) e)

IsDead-set_ne : (live : List ℕ) (i j v : ℕ) → IsDead live j → j ≢ i → IsDead (set live i v) j
IsDead-set_ne live i j v d n =
    (omega (arith, length-set live i v), rw (get_or-set_ne live i j v 0 (λ e. n (sym e))) d.1)

module _ {live free : List ℕ} {count : ℕ} (b : Balanced live free count) where
  -- `Insert` at the slot at the back of the free list.
  pub Balanced-pop :
      (slot : ℕ) → front free ≡ some slot → Balanced (set live slot 1) (pop_back free) (count + 1)
  Balanced-pop slot e = record {
    counted = omega (arith, b.counted, count_live-set live slot (All-front _ free b.free_dead e));
    free_dead =
        All-zip (pop_back free) (λ j d n. IsDead-set_ne live slot j 1 d n)
          (All-pop_back _ free b.free_dead) (pop_back-ne free b.free_once e);
    free_once = Distinct-pop_back free b.free_once;
    all_free = omega (arith, b.all_free, length-pop_back free e, length-set live slot 1);
  }

  Balanced-grow : (v : ℕ) → All (IsDead (live ++ v ∷ [])) free
  Balanced-grow v =
      All-map free
        (λ j d. (
          omega (arith, length-append live (v ∷ [])),
          rw (get_or-append_left live (v ∷ []) j 0 d.0) d.1,
        ))
        b.free_dead

  -- `Insert` at a new slot.
  pub Balanced-new : Balanced (live ++ 1 ∷ []) free (count + 1)
  Balanced-new = record {
    counted = omega (arith, b.counted, count_live-append live (1 ∷ []));
    free_dead = Balanced-grow 1;
    free_once = b.free_once;
    all_free = omega (arith, b.all_free, length-append live (1 ∷ []));
  }

  -- `Release` of a live slot.
  pub Balanced-release :
      (slot : ℕ)
      → slot < length live
      → get_or live slot 0 ≢ 0
      → Balanced (set live slot 0) (free ++ slot ∷ []) (count - 1)
  Balanced-release slot h e =
      let others : All (λ j. j ≢ slot) free =
        All-map free (λ j d q. e (ap (λ k. get_or live k 0) (sym q) ∙ d.1)) b.free_dead in
      let fewer = count_live-clear live slot h e in
      record {
        counted = omega (arith, b.counted, fewer);
        free_dead =
            All-append _ free (slot ∷ [])
              (All-zip free (λ j d n. IsDead-set_ne live slot j 0 d n) b.free_dead others)
              (((omega (arith, length-set live slot 0), get_or-set_self live slot 0 0 h)), tt);
        free_once = Distinct-append_end free slot others b.free_once;
        all_free = omega (
          arith,
          b.counted,
          b.all_free,
          fewer,
          length-append free (slot ∷ []),
          length-set live slot 0,
        );
      }

pub Balanced-nil : Balanced [] [] 0
Balanced-nil = record { counted = refl; free_dead = tt; free_once = tt; all_free = omega arith }

-- ===== src/Carne/Interleaving.antt =====
-- Carne.hpp: what several threads that increase incarnations at the same time come to.
use mathlib.Core.Option
use moose_tools.Prelude.{
  ℕ, zero, suc, ◌+◌, ◌%◌, ◌≡◌, ◌≢◌, refl, Option, none, some, List, [], ◌∷◌, arith, u64_mod, ◌==◌,
  if◌then◌else◌, ◌∙◌, ap, All, sym,
}
use moose_tools.Carne.{Heap, bump}
use moose_tools.Carne.Threads.{
  Task, calling, returned, terminated, continued, task_step, system_step, schedule,
}
use moose_tools.Carne.Chain.{chain, occurrences, chain-bump}
use moose_tools.Carne.Owed.{
  owed_on, owed, owed_all, IsWhole, SameParents, owed-SameParents, owed_all-SameParents,
  IsWhole-SameParents, bump-SameParents, All-SameParents,
}

-- What a thread's step keeps: the parents, that no parent on its way is null, and of each object the
-- count with what the thread owes.
record Kept (h h' : Heap) (t t' : Task) : Type 0 where
  parents : SameParents h h'
  whole : IsWhole h' t'
  balance :
      (b : ℕ)
      → ((h' b).incarnation + owed h b t') % u64_mod ≡ ((h b).incarnation + owed h b t) % u64_mod

bump_count :
    (h : Heap) (a b n : ℕ)
    → ((bump h a b).incarnation + n) % u64_mod
      ≡ ((h b).incarnation + ((if a == b then 1 else 0) + n)) % u64_mod
unfolding bump
bump_count h a b n = ground arith

chain_rest :
    (o : Option (List ℕ)) (a : ℕ) (path : List ℕ)
    → Option.map (◌∷◌ a) o ≡ some path
    → (rest : List ℕ) × (o ≡ some rest) × (a ∷ rest ≡ path)
chain_rest none a path e = absurd cc
chain_rest (some rest) a path e = (rest, refl, cc)

owed_calling :
    (h : Heap) (b depth a : ℕ) (path : List ℕ)
    → chain depth h a ≡ some path
    → owed h b (calling depth a) ≡ occurrences b path
unfolding owed owed_on
owed_calling h b depth a path e = rw e refl

chain-none : (h : Heap) (depth a : ℕ) → (h a).parent ≡ none → chain (suc depth) h a ≡ none
unfolding chain
chain-none h depth a q = rw (q, chain)

chain-some :
    (h : Heap) (depth a p : ℕ)
    → (h a).parent ≡ some p
    → chain (suc depth) h a ≡ Option.map (◌∷◌ a) (chain depth h p)
unfolding chain
chain-some h depth a p q = rw (q, chain)

some-ne-none : (path : List ℕ) → some path ≡ none → ⊥
some-ne-none path e = cc

continued-Kept :
    (h : Heap) (depth a : ℕ) (o : Option ℕ) (path : List ℕ)
    → (h a).parent ≡ o
    → chain (suc depth) h a ≡ some path
    → Kept h (continued h depth a o).0 (calling (suc depth) a) (continued h depth a o).1
unfolding continued IsWhole occurrences
continued-Kept h depth a none path q e = absurd (some-ne-none path (sym e ∙ chain-none h depth a q))
continued-Kept h depth a (some p) path q e =
    let (rest, r, f) = chain_rest (chain depth h p) a path (sym (chain-some h depth a p q) ∙ e) in
    record {
      parents = bump-SameParents h a;
      whole = (rest, chain-bump depth h a p ∙ r);
      balance = λ b.
          let o : owed h b (calling (suc depth) a)
              ≡ (if a == b then 1 else 0) + owed h b (calling depth p) =
            owed_calling h b (suc depth) a path e
            ∙ ap (occurrences b) (sym f)
            ∙ ap (λ (n : ℕ). (if a == b then 1 else 0) + n)
                (sym (owed_calling h b depth p rest r)) in
          rw o (bump_count h a b (owed h b (calling depth p)));
    }

task_step-Kept : (h : Heap) (t : Task) → IsWhole h t → Kept h (task_step h t).0 t (task_step h t).1
unfolding task_step IsWhole
task_step-Kept h (calling zero a) w = record {
  parents = bump-SameParents h a;
  whole = tt;
  balance = λ b. unfold owed owed_on chain occurrences in bump_count h a b 0;
}
task_step-Kept h (calling (suc depth) a) (path, e) =
    continued-Kept h depth a (h a).parent path refl e
task_step-Kept h returned w = record { parents = λ b. refl; whole = tt; balance = λ b. refl }
task_step-Kept h terminated w = absurd w

system_step-Kept :
    (i : ℕ) (h : Heap) (ts : List Task)
    → All (IsWhole h) ts
    → SameParents h (system_step i h ts).0
      × All (IsWhole (system_step i h ts).0) (system_step i h ts).1
      × ((b : ℕ)
          → (((system_step i h ts).0 b).incarnation
                + owed_all (system_step i h ts).0 b (system_step i h ts).1)
              % u64_mod
            ≡ ((h b).incarnation + owed_all h b ts) % u64_mod)
unfolding system_step owed_all
system_step-Kept i h [] w = (λ b. refl, tt, λ b. refl)
system_step-Kept zero h (t ∷ ts) (w, ws) =
    let k = task_step-Kept h t w in
    (
      k.parents,
      (k.whole, All-SameParents h (task_step h t).0 ts k.parents ws),
      λ b. omega (
        arith,
        k.balance b,
        owed-SameParents h (task_step h t).0 b (task_step h t).1 k.parents,
        owed_all-SameParents h (task_step h t).0 b ts k.parents,
      ),
    )
system_step-Kept (suc i) h (t ∷ ts) (w, ws) =
    let (p, a, m) = system_step-Kept i h ts ws in
    (
      p,
      (IsWhole-SameParents h (system_step i h ts).0 t p w, a),
      λ b. omega (arith, m b, owed-SameParents h (system_step i h ts).0 b t p),
    )

schedule-Kept :
    (is : List ℕ) (h : Heap) (ts : List Task)
    → All (IsWhole h) ts
    → SameParents h (schedule is h ts).0
      × All (IsWhole (schedule is h ts).0) (schedule is h ts).1
      × ((b : ℕ)
          → (((schedule is h ts).0 b).incarnation
                + owed_all (schedule is h ts).0 b (schedule is h ts).1)
              % u64_mod
            ≡ ((h b).incarnation + owed_all h b ts) % u64_mod)
unfolding schedule
schedule-Kept [] h ts w = (λ b. refl, w, λ b. refl)
schedule-Kept (i ∷ is) h ts w =
    let (p, a, m) = system_step-Kept i h ts w in
    let (p', a', m') = schedule-Kept is (system_step i h ts).0 (system_step i h ts).1 a in
    (λ b. p' b ∙ p b, a', λ b. m' b ∙ m b)

not_terminated : (h : Heap) (ts : List Task) → All (IsWhole h) ts → All (λ t. t ≢ terminated) ts
unfolding IsWhole
not_terminated h [] w = tt
not_terminated h (calling depth a ∷ ts) (w, ws) = (λ e. cc, not_terminated h ts ws)
not_terminated h (returned ∷ ts) (w, ws) = (λ e. cc, not_terminated h ts ws)
not_terminated h (terminated ∷ ts) (w, ws) = absurd w

-- Threads that run `increase_incarnation` at the same time, in any interleaving of their atomic
-- increments, where no parent on the way is null: no assertion fails, and of each object the counter
-- and the increments that the threads still have to do make up, modulo 2 ^ 64, the counter at the
-- start and the increments that they had to do then. So no increment is lost.
pub schedule-owed_all :
    (is : List ℕ) (h : Heap) (ts : List Task) (b : ℕ)
    → All (IsWhole h) ts
    → All (λ t. t ≢ terminated) (schedule is h ts).1
      × ((((schedule is h ts).0 b).incarnation + owed_all h b (schedule is h ts).1) % u64_mod
          ≡ ((h b).incarnation + owed_all h b ts) % u64_mod)
schedule-owed_all is h ts b w =
    let (p, a, m) = schedule-Kept is h ts w in
    (
      not_terminated (schedule is h ts).0 (schedule is h ts).1 a,
      omega (arith, m b, owed_all-SameParents h (schedule is h ts).0 b (schedule is h ts).1 p),
    )

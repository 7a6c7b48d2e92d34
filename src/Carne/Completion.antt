-- ===== src/Carne/Completion.antt =====
-- Carne.hpp: threads that are given their turns return, and what they have counted then.
use moose_tools.Prelude.{
  some_lem, ℕ, zero, suc, ◌+◌, ◌-◌, ◌≤◌, ◌%◌, ◌≡◌, refl, Option, none, some, List, [], ◌∷◌,
  get_elem?, length, map, subst, ◌≢◌, arith, u64_mod, ◌==◌, if◌then◌else◌, All, ap, ◌∙◌,
}
use moose_tools.Carne.{Heap}
use moose_tools.Carne.Threads.{
  Task, calling, returned, terminated, continued, task_step, system_step, schedule,
}
use moose_tools.Carne.Chain.{occurrences}
use moose_tools.Carne.Owed.{IsWhole, owed_all, owed_all-returned}
use moose_tools.Carne.Interleaving.{schedule-owed_all}

-- How many turns a thread needs at most.
abbrev pub turns : Task → ℕ
turns (calling depth a) = suc depth
turns _ = 0

continued-turns :
    (h : Heap) (depth a : ℕ) (o : Option ℕ) → turns (continued h depth a o).1 ≤ suc depth
unfolding continued
continued-turns h depth a none = omega arith
continued-turns h depth a (some p) = omega arith

task_step-turns : (h : Heap) (t : Task) → turns (task_step h t).1 ≤ turns t - 1
unfolding task_step
task_step-turns h (calling zero a) = omega arith
task_step-turns h (calling (suc depth) a) = omega (arith, continued-turns h depth a (h a).parent)
task_step-turns h returned = omega arith
task_step-turns h terminated = omega arith

-- A turn of thread i brings it nearer to its end, and leaves the other threads where they are.
system_step-turns :
    (i j : ℕ) (h : Heap) (ts : List Task) (t : Task)
    → get_elem? ts j ≡ some t
    → (t' : Task) × (get_elem? (system_step i h ts).1 j ≡ some t')
      × (turns t' ≤ turns t - (if i == j then 1 else 0))
unfolding system_step
system_step-turns i j h [] t e = absurd cc
system_step-turns zero zero h (t0 ∷ ts) t e =
    let same = some_lem t0 t e in ((task_step h t0).1, refl, rw (← same) (task_step-turns h t0))
system_step-turns zero (suc j) h (t0 ∷ ts) t e = (t, e, ground arith)
system_step-turns (suc i) zero h (t0 ∷ ts) t e = (t, e, ground arith)
system_step-turns (suc i) (suc j) h (t0 ∷ ts) t e =
    let (t', e', l) = system_step-turns i j h ts t e in (t', e', ground arith)

schedule-turns :
    (is : List ℕ) (j : ℕ) (h : Heap) (ts : List Task) (t : Task)
    → get_elem? ts j ≡ some t
    → (t' : Task) × (get_elem? (schedule is h ts).1 j ≡ some t')
      × (turns t' ≤ turns t - occurrences j is)
unfolding schedule occurrences
schedule-turns [] j h ts t e = (t, e, omega arith)
schedule-turns (i ∷ is) j h ts t e =
    let (t1, e1, l1) = system_step-turns i j h ts t e in
    let (t2, e2, l2) = schedule-turns is j (system_step i h ts).0 (system_step i h ts).1 t1 e1 in
    (t2, e2, omega arith)

-- Every thread gets as many turns as it needs.
abbrev pub IsServed : List ℕ → List Task → Type 0
IsServed is ts = (j : ℕ) (t : Task) → get_elem? ts j ≡ some t → turns t ≤ occurrences j is

system_step-length : (i : ℕ) (h : Heap) (ts : List Task) → length (system_step i h ts).1 ≡ length ts
unfolding system_step
system_step-length i h [] = refl
system_step-length zero h (t ∷ ts) = refl
system_step-length (suc i) h (t ∷ ts) = ap suc (system_step-length i h ts)

schedule-length :
    (is : List ℕ) (h : Heap) (ts : List Task) → length (schedule is h ts).1 ≡ length ts
unfolding schedule
schedule-length [] h ts = refl
schedule-length (i ∷ is) h ts =
    schedule-length is (system_step i h ts).0 (system_step i h ts).1 ∙ system_step-length i h ts

All-get_elem? :
    (P : Task → Type 0) (ts : List Task) (j : ℕ) (t : Task)
    → All P ts
    → get_elem? ts j ≡ some t
    → P t
All-get_elem? P [] j t a e = absurd cc
All-get_elem? P (t0 ∷ ts) zero t (p, a) e = subst P (some_lem t0 t e) p
All-get_elem? P (t0 ∷ ts) (suc j) t (p, a) e = All-get_elem? P ts j t a e

returned_lem : (t : Task) → turns t ≡ 0 → t ≢ terminated → t ≡ returned
returned_lem (calling depth a) z n = absurd (omega arith)
returned_lem returned z n = refl
returned_lem terminated z n = absurd (n refl)

all_returned_lem :
    (ts us : List Task)
    → length us ≡ length ts
    → ((j : ℕ) (t : Task) → get_elem? ts j ≡ some t → get_elem? us j ≡ some returned)
    → us ≡ map (λ _. returned) ts
all_returned_lem [] [] l f = refl
all_returned_lem [] (u ∷ us) l f = absurd (omega arith)
all_returned_lem (t ∷ ts) [] l f = absurd (omega arith)
all_returned_lem (t ∷ ts) (u ∷ us) l f =
    let q : u ≡ returned = some_lem u returned (f 0 t refl) in
    rw (q, all_returned_lem ts us (omega arith) (λ j. f (suc j))) refl

served-returned :
    (is : List ℕ) (h : Heap) (ts : List Task) (j : ℕ) (t : Task)
    → All (IsWhole h) ts
    → IsServed is ts
    → get_elem? ts j ≡ some t
    → get_elem? (schedule is h ts).1 j ≡ some returned
served-returned is h ts j t w s e =
    let (t', e', l) = schedule-turns is j h ts t e in
    let alive =
      All-get_elem? (λ u. u ≢ terminated) (schedule is h ts).1 j t'
        (schedule-owed_all is h ts 0 w).0 e' in
    e' ∙ ap some (returned_lem t' (omega (arith, s j t e)) alive)

-- Threads that run `increase_incarnation` at the same time, where no parent on the way is null: once
-- each has had as many turns as its class has parent types, and one more, all have returned, and each
-- object has been counted, modulo 2 ^ 64, as often as it stands on the ways of the threads.
pub schedule-returned :
    (is : List ℕ) (h : Heap) (ts : List Task) (b : ℕ)
    → All (IsWhole h) ts
    → IsServed is ts
    → ((schedule is h ts).1 ≡ map (λ _. returned) ts)
      × (((schedule is h ts).0 b).incarnation % u64_mod
          ≡ ((h b).incarnation + owed_all h b ts) % u64_mod)
schedule-returned is h ts b w s =
    let done =
      all_returned_lem ts (schedule is h ts).1 (schedule-length is h ts)
        (λ j t e. served-returned is h ts j t w s e) in
    let none_owed : owed_all h b (schedule is h ts).1 ≡ 0 =
      ap (owed_all h b) done ∙ owed_all-returned h b ts in
    (done, omega (arith, (schedule-owed_all is h ts b w).1))

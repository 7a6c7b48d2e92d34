-- ===== src/Endpoints/Plain.antt =====
-- Parsers and addresses that meet the requirements of `Spirit` and `Addresses`.
use moose_tools.Prelude.{
  ℕ, ◌+◌, ◌-◌, ◌*◌, ◌/◌, ◌%◌, ◌<◌, ◌^◌, ◌≡◌, ◌≢◌, refl, ap, subst, Bool, true, Option, none, some,
  [], ◌∷◌, ◌++◌, Bytes, codes, ltb, leb, ◌==◌, ◌&&◌, ◌||◌, if◌then◌else◌, arith, Bool-cases, inl,
  inr,
}
use moose_tools.Endpoints.Libraries.{Spirit, Addresses, is_digit, IsIn, Stops}

unfoldable pub strip : Bytes → Bytes → Option Bytes
strip [] t = some t
strip (c ∷ s) [] = none
strip (c ∷ s) (d ∷ t) = let rest = strip s t in if c == d then rest else none

pub strip_complete : (s r : Bytes) → strip s (s ++ r) ≡ some r
unfolding strip
strip_complete [] r = refl
strip_complete (c ∷ s) r = ground (arith, strip_complete s r)

pub strip_sound : (s t r : Bytes) → strip s t ≡ some r → t ≡ s ++ r
unfolding strip
strip_sound [] t r h = ground arith
strip_sound (c ∷ s) [] r h = cc
strip_sound (c ∷ s) (d ∷ t) r h = ground (arith, strip_sound s t r)

unfoldable pub span : (ℕ → Bool) → Bytes → Bytes × Bytes
span p [] = ([], [])
span p (c ∷ t) = let (w, r) = span p t in if p c then (c ∷ w, r) else ([], c ∷ t)

unfoldable pub some_run : Bytes × Bytes → Option (Bytes × Bytes)
some_run ([], r) = none
some_run (c ∷ w, r) = some (c ∷ w, r)

span_complete : (p : ℕ → Bool) (w r : Bytes) → IsIn p w → Stops p r → span p (w ++ r) ≡ (w, r)
unfolding span
span_complete p [] [] i s = refl
span_complete p [] (c ∷ r) i s = ground arith
span_complete p (c ∷ w) r (h, i) s = rw (h, span_complete p w r i s)

span_sound : (p : ℕ → Bool) (t : Bytes) → (t ≡ (span p t).0 ++ (span p t).1) × IsIn p (span p t).0
unfolding span
span_sound p [] = (refl, tt)
span_sound p (c ∷ t) =
    let (e, i) = span_sound p t in
    elim (Bool-cases (p c)) [ inl h ↦ rw h (ap (◌∷◌ c) e, (h, i)) | inr h ↦ rw h (refl, tt) ]

unfoldable pub value : ℕ → Bytes → ℕ
value n [] = n
value n (c ∷ w) = value (n * 10 + (c - b'0')) w

unfoldable pub number : Option (Bytes × Bytes) → Option (ℕ × Bytes)
number none = none
number (some (w, r)) = if ltb (value 0 w) (2 ^ 32) then some (value 0 w, r) else none

pub number_bound :
    (o : Option (Bytes × Bytes)) (n : ℕ) (r : Bytes) → number o ≡ some (n, r) → n < 2 ^ 32
unfolding number
number_bound none n r h = cc
number_bound (some (w, s)) n r h = ground arith

some_run_sound : (q : Bytes × Bytes) (w r : Bytes) → some_run q ≡ some (w, r) → q ≡ (w, r)
unfolding some_run
some_run_sound ([], s) w r h = cc
some_run_sound (c ∷ v, s) w r h = ground arith

unfoldable pub plus : (ℕ → Bool) → Bytes → Option (Bytes × Bytes)
plus p t = some_run (span p t)

pub plus_complete :
    (p : ℕ → Bool) (w r : Bytes) → w ≢ [] → IsIn p w → Stops p r → plus p (w ++ r) ≡ some (w, r)
unfolding plus some_run
plus_complete p [] r n i s = absurd (n refl)
plus_complete p (c ∷ w) r n i s = rw (span_complete p (c ∷ w) r i s)

pub plus_sound : (p : ℕ → Bool) (t w r : Bytes) → plus p t ≡ some (w, r) → (t ≡ w ++ r) × IsIn p w
unfolding plus
plus_sound p t w r h =
    let e = some_run_sound (span p t) w r h in
    subst (λ (q : Bytes × Bytes). (t ≡ q.0 ++ q.1) × IsIn p q.0) e (span_sound p t)

pub plus-none : (p : ℕ → Bool) (t : Bytes) → Stops p t → plus p t ≡ none
unfolding plus some_run span
plus-none p [] s = refl
plus-none p (c ∷ t) s = rw s

abbrev pub plain : Spirit
plain = record {
  lit = strip;
  plus_char = plus;
  uint_ = λ t. number (plus is_digit t);
  lit_complete = strip_complete;
  lit_sound = strip_sound;
  plus_char_complete = plus_complete;
  plus_char_sound = plus_sound;
  plus_char_none = plus-none;
  uint_bound = λ t. number_bound (plus is_digit t);
}

pub data Host4 : Type 0 where
  localhost : Host4

pub data Host6 : Type 0 where
  loopback scoped : Host6

unfoldable pub show_host4 : Host4 → Bytes
show_host4 localhost = codes "127.0.0.1"

unfoldable pub show_host6 : Host6 → Bytes
show_host6 loopback = codes "::1"
show_host6 scoped = codes "fe80::1%2"

unfoldable pub make_host4 : Bytes → Option Host4
make_host4 w = elim (strip (codes "127.0.0.1") w) [ some [] ↦ some localhost | _ ↦ none ]

unfoldable pub make_host6 : Bytes → Option Host6
make_host6 w = elim (strip (codes "::1") w) [
  | some [] ↦ some loopback
  | _ ↦ elim (strip (codes "fe80::1%2") w) [ some [] ↦ some scoped | _ ↦ none ]
]

unfoldable pub scope : Host6 → ℕ
scope loopback = 0
scope scoped = 2

unfoldable pub digit : ℕ → ℕ
digit n = b'0' + n % 10

unfoldable pub show_number : ℕ → Bytes
show_number n =
    digit (n / 10000) ∷ digit (n / 1000) ∷ digit (n / 100) ∷ digit (n / 10) ∷ digit n ∷ []

digit-IsIn : (n : ℕ) → is_digit (digit n) ≡ true
unfolding digit
digit-IsIn n = ground arith

value-show_number : (n : ℕ) → n < 2 ^ 16 → value 0 (show_number n) ≡ n
unfolding value show_number digit
value-show_number n h = omega arith

runs : (n : ℕ) → plus is_digit (show_number n) ≡ some (show_number n, [])
unfolding show_number
runs n =
    plus_complete is_digit (show_number n) [] (λ e. cc)
      (digit-IsIn _, (digit-IsIn _, (digit-IsIn _, (digit-IsIn _, (digit-IsIn _, tt))))) tt

pub number-show_number :
    (n : ℕ) → n < 2 ^ 16 → number (plus is_digit (show_number n)) ≡ some (n, [])
number-show_number n h = rw (runs n) (unfold number in rw (value-show_number n h) (ground arith))

pub make-show_host4 : (a : Host4) → make_host4 (show_host4 a) ≡ some a
unfolding make_host4 show_host4 strip
make-show_host4 localhost = refl

pub make-show_host6 : (a : Host6) → make_host6 (show_host6 a) ≡ some a
unfolding make_host6 show_host6 strip
make-show_host6 loopback = refl
make-show_host6 scoped = refl

pub show_host4_head : (a : Host4) → (c : ℕ) × (cs : Bytes) × (show_host4 a ≡ c ∷ cs)
unfolding show_host4
show_host4_head localhost = (b'1', codes "27.0.0.1", refl)

pub show_host6_head : (a : Host6) → (c : ℕ) × (cs : Bytes) × (show_host6 a ≡ c ∷ cs)
unfolding show_host6
show_host6_head loopback = (b':', codes ":1", refl)
show_host6_head scoped = (b'f', codes "e80::1%2", refl)

pub host4_chars : (a : Host4) → IsIn (λ c. is_digit c || c == b'.') (show_host4 a)
unfolding show_host4
host4_chars localhost = (refl, (refl, (refl, (refl, (refl, (refl, (refl, (refl, (refl, tt)))))))))

pub host6_chars :
    (a : Host6)
    → scope a ≡ 0
    → IsIn (λ c. is_digit c || (leb b'a' c && leb c b'f') || c == b':' || c == b'.') (show_host6 a)
unfolding show_host6 scope
host6_chars loopback z = (refl, (refl, (refl, tt)))
host6_chars scoped z = absurd (omega arith)

abbrev pub hosts : Addresses plain
hosts = record {
  V4 = Host4;
  V6 = Host6;
  make_v4 = make_host4;
  make_v6 = make_host6;
  show_v4 = show_host4;
  show_v6 = show_host6;
  show_port = show_number;
  scope_id = scope;
  make-show_v4 = make-show_host4;
  make-show_v6 = make-show_host6;
  show_v4_head = show_host4_head;
  show_v4_chars = host4_chars;
  show_v6_head = show_host6_head;
  show_v6_chars = host6_chars;
  uint_-show_port = number-show_number;
}

-- ===== src/Daemon/Poll/Table.antt =====
-- The connections counted: what `put_fd`, a new connection and `poll` do to the number of open slots
-- of package/alt-f-utils/alt-f-utils-0.1.11/dns320l-daemon.c.
use alt_f.Prelude.{
  ℕ, zero, suc, ◌+◌, ◌≤◌, ◌<◌, ◌≡◌, refl, ap, ◌∙◌, Option, none, some, List, [], ◌∷◌, length,
  get_elem?, set, arith,
}
use alt_f.Daemon.Poll.{Slot, Revents, free_from, put_fd, with_revents}

abbrev pub one_if_open : Option ℕ → ℕ
one_if_open none = 0
one_if_open (some f) = 1

-- How many slots have a descriptor.
abbrev pub open_count : List Slot → ℕ
open_count [] = 0
open_count (s ∷ ss) = one_if_open s.fd + open_count ss

-- The slot `i` has a descriptor.
abbrev pub IsOpen : List Slot → ℕ → Type 0
IsOpen fds i = (s : Slot) × (f : ℕ) × (get_elem? fds i ≡ some s) × (s.fd ≡ some f)

abbrev pub IsFree : List Slot → ℕ → Type 0
IsFree fds i = (s : Slot) × (get_elem? fds i ≡ some s) × (s.fd ≡ none)

pub length-put_fd : (fds : List Slot) (i : ℕ) (f : Option ℕ) → length (put_fd fds i f) ≡ length fds
unfolding put_fd
length-put_fd [] i f = refl
length-put_fd (s ∷ ss) zero f = refl
length-put_fd (s ∷ ss) (suc i) f = ap suc (length-put_fd ss i f)

pub length-with_revents :
    (fds : List Slot) (rs : List Revents) → length (with_revents fds rs) ≡ length fds
unfolding with_revents
length-with_revents [] rs = refl
length-with_revents (s ∷ ss) [] = ap suc (length-with_revents ss [])
length-with_revents (s ∷ ss) (r ∷ rs) = ap suc (length-with_revents ss rs)

pub open_count-with_revents :
    (fds : List Slot) (rs : List Revents) → open_count (with_revents fds rs) ≡ open_count fds
unfolding with_revents
open_count-with_revents [] rs = refl
open_count-with_revents (s ∷ ss) [] = ap (λ n. one_if_open s.fd + n) (open_count-with_revents ss [])
open_count-with_revents (s ∷ ss) (r ∷ rs) =
    ap (λ n. one_if_open s.fd + n) (open_count-with_revents ss rs)

-- Giving an open slot back.
pub open_count-put_none :
    (fds : List Slot) (i f : ℕ) (s : Slot)
    → get_elem? fds i ≡ some s
    → s.fd ≡ some f
    → open_count fds ≡ open_count (put_fd fds i none) + 1
unfolding put_fd
open_count-put_none [] i f s e h = ground arith
open_count-put_none (x ∷ xs) zero f s e h =
    let x_open : one_if_open x.fd ≡ 1 = ground arith in omega arith
open_count-put_none (x ∷ xs) (suc i) f s e h = omega (arith, open_count-put_none xs i f s e h)

-- Writing -1 over -1.
pub open_count-put_free :
    (fds : List Slot) (i : ℕ) → IsFree fds i → open_count (put_fd fds i none) ≡ open_count fds
unfolding put_fd
open_count-put_free [] i h = refl
open_count-put_free (x ∷ xs) zero (s, e, n) =
    let x_free : one_if_open x.fd ≡ 0 = ground arith in omega arith
open_count-put_free (x ∷ xs) (suc i) h = omega (arith, open_count-put_free xs i h)

-- A new connection in a free slot.
pub open_count-set :
    (fds : List Slot) (i f : ℕ) (r : Revents)
    → IsFree fds i
    → open_count (set fds i (record { fd = some f; revents = r })) ≡ open_count fds + 1
open_count-set [] i f r (s, e, n) = ground arith
open_count-set (x ∷ xs) zero f r (s, e, n) =
    let x_free : one_if_open x.fd ≡ 0 = ground arith in omega arith
open_count-set (x ∷ xs) (suc i) f r h = omega (arith, open_count-set xs i f r h)

pub open_count-le : (fds : List Slot) → open_count fds ≤ length fds
open_count-le [] = omega arith
open_count-le (s ∷ ss) = omega (arith, open_count-le ss, one_if_open-le s.fd)
  where
    one_if_open-le : (o : Option ℕ) → one_if_open o ≤ 1
    one_if_open-le none = omega arith
    one_if_open-le (some f) = omega arith

-- Where not all are taken, the search finds a free slot inside the table.
pub free_from-IsFree :
    (fds : List Slot) (k : ℕ)
    → open_count fds < length fds
    → (i : ℕ) × (free_from fds k ≡ k + i) × (i < length fds) × IsFree fds i
unfolding free_from
free_from-IsFree [] k h = absurd (omega arith)
free_from-IsFree (s ∷ ss) k h = search_slot s.fd refl (free_from-IsFree ss (k + 1))
  where
    search_slot :
        (o : Option ℕ)
        → s.fd ≡ o
        → (open_count ss < length ss
            → (i : ℕ) × (free_from ss (k + 1) ≡ k + 1 + i) × (i < length ss) × IsFree ss i)
        → (i : ℕ) × (free_from (s ∷ ss) k ≡ k + i) × (i < length (s ∷ ss)) × IsFree (s ∷ ss) i
    search_slot none e rest = (0, rw (e, free_from) (omega arith), omega arith, (s, refl, e))
    search_slot (some f) e rest =
        let s_open : one_if_open s.fd ≡ 1 = ap one_if_open e in
        let (i, found, inside, free) = rest (omega arith) in
        (suc i, rw (e, free_from) (found ∙ omega arith), omega arith, free)

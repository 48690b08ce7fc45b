-- ===== src/Daemon/Handle/Names.antt =====
-- The name at the front of a line, and what follows its first blank: `HandleCommand` of
-- package/alt-f-utils/alt-f-utils-0.1.11/dns320l-daemon.c.
use alt_f.Prelude.{ℕ, ◌≡◌, ◌≢◌, refl, ap, none, some, List, [], ◌∷◌, ◌++◌, ne→==}
use alt_f.Daemon.Handle.{split_name}

-- No byte of the text is `x`.
abbrev pub Lacks : ℕ → List ℕ → Type 0
Lacks x [] = Unit
Lacks x (c ∷ cs) = (c ≢ x) × Lacks x cs

pub split_name-none : (name : List ℕ) → Lacks 32 name → split_name name ≡ (name, none)
unfolding split_name
split_name-none [] h = refl
split_name-none (c ∷ cs) h = rw (ne→== c 32 h.0) (ap (λ r. (c ∷ r.0, r.1)) (split_name-none cs h.1))

pub split_name-some :
    (name opt : List ℕ) → Lacks 32 name → split_name (name ++ 32 ∷ opt) ≡ (name, some opt)
unfolding split_name
split_name-some [] opt h = refl
split_name-some (c ∷ cs) opt h =
    rw (ne→== c 32 h.0) (ap (λ r. (c ∷ r.0, r.1)) (split_name-some cs opt h.1))

-- ===== src/Log/Levels/Laws.antt =====
-- What the setters leave, which statements log, and the file name of a path.
use p_base.Base.{
  ℕ, ◌*◌, ◌≤◌, ◌≡◌, ◌≢◌, refl, sym, ap, append_assoc, ◌∙◌, subst, arith, Bool, Option, none, some,
  ◌==◌, if◌then◌else◌, List, [], ◌∷◌, ◌++◌, length, drop, Bool-cases, inl, inr, ◌⊎◌, length-append,
}
use p_base.Log.Levels.{LogSettings, or_here, last_from, SourceFile, source_file_of, source_file}

-- The settings that the setters allow.
pub record IsSettings (g : LogSettings) : Type 0 where
  pub levels : (g.log_level ≤ 6) × (g.ef_log_level ≤ 6)
  pub lengths : (1024 ≤ g.max_length_per_log) × (g.max_length_per_log ≤ 16 * 1024 * 1024)

-- A setter answers whether its argument is allowed, and the setting is the argument then and as it
-- was else.
pub record Sets (allowed : Bool) (field : LogSettings → ℕ) (value : ℕ) (g : LogSettings)
    (res : Bool × LogSettings) : Type 0 where
  pub answer : res.0 ≡ allowed
  pub after : field res.1 ≡ (if allowed then value else field g)
  pub valid : IsSettings res.1

abbrev pub Lacks : ℕ → List ℕ → Type 0
Lacks c [] = Unit
Lacks c (x ∷ xs) = (x ≢ c) × Lacks c xs

-- What `last_from` gives: the rest behind the last `c`, or nothing when there is none.
abbrev Splits : ℕ → List ℕ → Option (List ℕ) → Type 0
Splits c xs none = Lacks c xs
Splits c xs (some ys) =
    (before : List ℕ) × (name : List ℕ) × (ys ≡ c ∷ name) × (xs ≡ before ++ ys) × Lacks c name

last_from-Splits : (c : ℕ) (xs : List ℕ) → Splits c xs (last_from c xs)
last_from-Splits c [] = tt
last_from-Splits c (x ∷ xs) = go (last_from c xs) (last_from-Splits c xs)
  where
    go : (o : Option (List ℕ)) → Splits c xs o → Splits c (x ∷ xs) (or_here c (x ∷ xs) o)
    go (some ys) (before, name, e, k, l) = (x ∷ before, name, e, ap (λ l. x ∷ l) k, l)
    go none l = elim (Bool-cases (x == c)) [
      | inl e ↦ let same : x ≡ c = ground arith in rw e ([], xs, ap (λ y. y ∷ xs) same, refl, l)
      | inr e ↦ rw e (λ k. ground arith, l)
    ]

-- What the constructor leaves of a path: its last part, with its length, and no slash in it, behind
-- nothing or behind a slash.
pub record IsLastPart (path : List ℕ) (line : ℕ) (f : SourceFile) : Type 0 where
  pub directory :
      (dir : List ℕ) × (path ≡ dir ++ f.file_name)
      × ((dir ≡ []) ⊎ ((before : List ℕ) × (dir ≡ before ++ b'/' ∷ [])))
  pub name : Lacks b'/' f.file_name
  pub size : f.name_size ≡ length f.file_name
  pub same_line : f.file_line ≡ line

-- The source file of a message is the last part of its path: what stands behind the last slash, or all
-- of a path without one, with the length of that part and the line.
pub source_file-IsLastPart :
    (path : List ℕ) (line : ℕ) → IsLastPart path line (source_file path line)
unfolding source_file
source_file-IsLastPart path line = go (last_from b'/' path) (last_from-Splits b'/' path)
  where
    go :
        (o : Option (List ℕ))
        → Splits b'/' path o
        → IsLastPart path line (source_file_of path line o)
    go none l = record { directory = ([], refl, inl refl); name = l; size = refl; same_line = refl }
    go (some slash) (before, name, e, k, l) =
        let behind : drop 1 slash ≡ name = ap (drop 1) e in
        record {
          directory = (
            before ++ b'/' ∷ [],
            k
                ∙ ap (λ l. before ++ l) (e ∙ ap (λ l. b'/' ∷ l) (sym behind))
                ∙ sym (append_assoc before (b'/' ∷ []) (drop 1 slash)),
            inr (before, refl),
          );
          name = subst (Lacks b'/') (sym behind) l;
          size =
              omega (arith, ap length k, ap length e, ap length behind, length-append before slash);
          same_line = refl;
        }

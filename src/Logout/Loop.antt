-- ===== src/Logout/Loop.antt =====
-- The loops of a logout over the keys of a directory.
use opkssh.Base.{
  ℕ, suc, true, false, List, [], ◌∷◌, ◌≡◌, ◌≢◌, inl, inr, refl, sym, subst, arith, Str, All, ok,
  err, Bool-cases,
}
use opkssh.Login.{Client}
use opkssh.Logout.{Done, Counted, counted, is_generated, remove_all}
use opkssh.Logout.Generated.{
  IsGenerated, is_generated-IsGenerated, IsGenerated-is_generated, Shrinks, Beside,
  IsGenerated-Shrinks, Removes, Spared,
}

module _ (client : Client) where
  open client use {fs}

  module _ (config : Str) (remove : Str → fs.State → Done client)
      (removes : Removes client config remove) where
    counted-keeps {ℓ} :
        (P : fs.State → Type ℓ) (d : Done client) (next : fs.State → Counted client)
        → P d.1
        → ((t : fs.State) → P t → P (next t).1)
        → P (counted client next d).1
    counted-keeps P (err e, t) next p f = p
    counted-keeps P (ok _, t) next p f = f t p

    counted-ok {ℓ} :
        (G : Counted client → Type ℓ) (d : Done client) (next : fs.State → Counted client)
        (count : ℕ)
        → ((d.0 ≡ ok tt) → ((next d.1).0 ≡ ok count) → G (next d.1))
        → (counted client next d).0 ≡ ok count
        → G (counted client next d)
    counted-ok G (err e, t) next count f h = absurd (ground arith)
    counted-ok G (ok _, t) next count f h = f refl h

    -- What every removal of a generated key keeps, a loop keeps.
    remove_all-keeps {ℓ κ} :
        (P : fs.State → Type ℓ) (Q : Str → Type κ)
        → ((path : Str) (s : fs.State)
            → Q path
            → is_generated client path s ≡ true
            → P s
            → P (remove path s).1)
        → (paths : List Str) (n : ℕ) (s : fs.State) → All Q paths
        → P s
        → P (remove_all client remove paths n s).1
    unfolding remove_all
    remove_all-keeps P Q step [] n s q p = p
    remove_all-keeps P Q step (path ∷ paths) n s (q, qs) p =
        elim (Bool-cases (is_generated client path s)) [
          | inl e ↦ rw e (
              counted-keeps P (remove path s) (remove_all client remove paths (suc n))
                (step path s q e p) λ t p. remove_all-keeps P Q step paths (suc n) t qs p)
          | inr e ↦ rw e (remove_all-keeps P Q step paths n s qs p)
        ]

    Shrinks-trans :
        (s t u : fs.State)
        → Shrinks client config s t
        → Shrinks client config t u
        → Shrinks client config s u
    Shrinks-trans s t u f g path content n h = f path content n (g path content n h)

    pub Shrinks-remove_all :
        (paths : List Str) (n : ℕ) (s0 s : fs.State)
        → All (Beside client config) paths
        → Shrinks client config s0 s
        → Shrinks client config s0 (remove_all client remove paths n s).1
    Shrinks-remove_all paths n s0 s all shrinks =
        remove_all-keeps (Shrinks client config s0) (Beside client config)
          (λ path s q e p. Shrinks-trans s0 s _ p (removes.shrinks path s)) paths n s all shrinks

    pub keeps-remove_all :
        (s0 : fs.State) (file content : Str) (paths : List Str) (n : ℕ) (s : fs.State)
        → file ≢ config
        → All (λ path. Beside client config path × Spared client s0 file path) paths
        → Shrinks client config s0 s
        → fs.read_file s file ≡ ok content
        → fs.read_file (remove_all client remove paths n s).1 file ≡ ok content
    keeps-remove_all s0 file content paths n s c all shrinks h =
        (remove_all-keeps (λ t. Shrinks client config s0 t × (fs.read_file t file ≡ ok content))
          (λ path. Beside client config path × Spared client s0 file path)
          (λ path s q e p. step path s q e p) paths n s all (shrinks, h)).1
      where
        step :
            (path : Str) (t : fs.State)
            → Beside client config path × Spared client s0 file path
            → is_generated client path t ≡ true
            → Shrinks client config s0 t × (fs.read_file t file ≡ ok content)
            → Shrinks client config s0 (remove path t).1
              × (fs.read_file (remove path t).1 file ≡ ok content)
        step path t (b, inl (n, m)) e (f, h) = (
          Shrinks-trans s0 t _ f (removes.shrinks path t),
          removes.keeps path file content t n m c h,
        )
        step path t (b, inr not_generated) e (f, h) = absurd (
            not_generated (
              IsGenerated-Shrinks client config path s0 t b f
                (is_generated-IsGenerated client path t e)))

    not_later :
        (n : ℕ) (s : fs.State) (path : Str) (paths : List Str)
        → Beside client config path
        → All (Beside client config) paths
        → ¬ IsGenerated client s path
        → ¬ IsGenerated client (remove_all client remove paths n s).1 path
    not_later n s path paths b bs g i = g (
        IsGenerated-Shrinks client config path s _ b
          (Shrinks-remove_all paths n s s bs λ p c m h. h) i)

    not_generated :
        (path : Str) (s : fs.State)
        → is_generated client path s ≡ false
        → ¬ IsGenerated client s path
    not_generated path s e g = ground (arith, IsGenerated-is_generated client path s g)

    taken :
        (path : Str) (paths : List Str) (n : ℕ) (s : fs.State)
        → is_generated client path s ≡ true
        → remove_all client remove (path ∷ paths) n s
          ≡ counted client (remove_all client remove paths (suc n)) (remove path s)
    unfolding remove_all
    taken path paths n s e = rw e refl

    skipped :
        (path : Str) (paths : List Str) (n : ℕ) (s : fs.State)
        → is_generated client path s ≡ false
        → remove_all client remove (path ∷ paths) n s ≡ remove_all client remove paths n s
    unfolding remove_all
    skipped path paths n s e = rw e refl

    -- What every removal of a key that succeeds keeps, a loop that succeeds keeps.
    pub remove_all-keeps_ok {ℓ κ} :
        (P : fs.State → Type ℓ) (Q : Str → Type κ)
        → ((path : Str) (t : fs.State)
            → Q path
            → (remove path t).0 ≡ ok tt
            → P t
            → P (remove path t).1)
        → (paths : List Str) (n : ℕ) (s : fs.State) (count : ℕ) → All Q paths
        → P s
        → (remove_all client remove paths n s).0 ≡ ok count
        → P (remove_all client remove paths n s).1
    unfolding remove_all
    remove_all-keeps_ok P Q step [] n s count q p = λ h. p
    remove_all-keeps_ok P Q step (path ∷ paths) n s count (q, qs) p =
        elim (Bool-cases (is_generated client path s)) [
          | inl e ↦
              subst (λ c. (c.0 ≡ ok count) → P c.1) (sym (taken path paths n s e))
                (counted-ok (λ c. P c.1) (remove path s) (remove_all client remove paths (suc n))
                  count
                  (λ r rest.
                    remove_all-keeps_ok P Q step paths (suc n) (remove path s).1 count qs
                      (step path s q r p) rest))
          | inr e ↦
              subst (λ c. (c.0 ≡ ok count) → P c.1) (sym (skipped path paths n s e))
                (remove_all-keeps_ok P Q step paths n s count qs p)
        ]

    -- If the loop succeeded, no key is there as one that opkssh made.
    abbrev Gone : List Str → ℕ → Counted client → Type 0
    Gone paths count c = (c.0 ≡ ok count) → All (λ path. ¬ IsGenerated client c.1 path) paths

    Gone-remove_all :
        (paths : List Str) (n : ℕ) (s : fs.State) (count : ℕ)
        → All (Beside client config) paths
        → Gone paths count (remove_all client remove paths n s)
    Gone-remove_all [] n s count b = λ h. tt
    Gone-remove_all (path ∷ paths) n s count (b, bs) =
        elim (Bool-cases (is_generated client path s)) [
          | inl e ↦ subst (Gone (path ∷ paths) count) (sym (taken path paths n s e)) λ h.
              counted-ok (λ c. All (λ path. ¬ IsGenerated client c.1 path) (path ∷ paths))
                (remove path s) (remove_all client remove paths (suc n)) count
                (λ r rest. (
                  not_later (suc n) (remove path s).1 path paths b bs
                      (λ i. removes.gone path i.key s b.0 r i.read_key),
                  Gone-remove_all paths (suc n) (remove path s).1 count bs rest,
                ))
                h
          | inr e ↦ subst (Gone (path ∷ paths) count) (sym (skipped path paths n s e)) λ h. (
            not_later n s path paths b bs (not_generated path s e),
            Gone-remove_all paths n s count bs h,
          )
        ]

    -- After a loop that succeeds none of its keys is there as one that opkssh made.
    pub gone-remove_all :
        (paths : List Str) (n : ℕ) (s : fs.State) (count : ℕ)
        → All (Beside client config) paths
        → (remove_all client remove paths n s).0 ≡ ok count
        → All (λ path. ¬ IsGenerated client (remove_all client remove paths n s).1 path) paths
    gone-remove_all paths n s count b h = Gone-remove_all paths n s count b h

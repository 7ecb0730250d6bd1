-- ===== src/Logout/Fate.antt =====
-- What becomes of a key that opkssh made, in a logout that succeeds.
use opkssh.Base.{
  ℕ, Bool, true, false, List, [], ◌≡◌, ◌≢◌, ◌⊎◌, inl, inr, refl, sym, subst, arith, Option, none,
  some, Str, str, ◌==◌, str_eq, str_beq, str_beq_iff, All, All-of_append, append_cancel_right,
  if◌then◌else◌, Bool-cases, Result, ok, err,
}
use opkssh.Files.{FsError, FileInfo}
use opkssh.Files.Others.{KeepsOthers}
use opkssh.Login.{KeyType, Client, certificate_path}
use opkssh.Logout.{
  Done, Counted, remove_pair, remove_all, remove_listed, default_paths, remove_default_ssh_dir_keys,
  remove_opk_ssh_dir_keys, in_entries, in_dir, config_of, opk_dir, dir_exists, with_home, plus,
  and_opk_dir, run,
}
use opkssh.Logout.Generated.{IsGenerated, IsRemoved, Beside, Removes}
use opkssh.Logout.Loop.{remove_all-keeps_ok}
use opkssh.Logout.Pair.{remove_pair-Removes, remove_listed-Removes}
use opkssh.Logout.Kept.{entry_paths, opk_paths, default_of, opk_of, run_paths, config_path}

-- Neither path is that of the other's certificate.
abbrev pub Apart : Str → Str → Type 0
Apart p q = (p ≢ certificate_path q) × (q ≢ certificate_path p)

module _ (client : Client) where
  open client use {fs}

  -- A key of opkssh is there as it was, or both of its files are gone.
  abbrev pub Fate : Str → fs.State → Type 0
  Fate path t = IsRemoved client t path ⊎ IsGenerated client t path

  -- A key whose removal does not touch the files of the first, unless it is the same.
  abbrev pub Clear : Str → Str → Str → Type 0
  Clear config path q = Beside client config q × Apart path q

  pub IsRemoved-of_Fate :
      (path : Str) (t : fs.State)
      → Fate path t
      → ¬ IsGenerated client t path
      → IsRemoved client t path
  IsRemoved-of_Fate path t (inl g) n = g
  IsRemoved-of_Fate path t (inr i) n = absurd (n i)

  module _ (config path : Str) (remove : Str → fs.State → Done client)
      (removes : Removes client config remove) (beside : Beside client config path) where
    stays :
        (q : Str) (t : fs.State) → IsRemoved client t path → IsRemoved client (remove q t).1 path
    stays q t (key, certificate) = (
      λ c h. key c (removes.shrinks q t path c beside.0 h),
      λ c h. certificate c (removes.shrinks q t (certificate_path path) c beside.1 h),
    )

    untouched :
        (q : Str) (t : fs.State)
        → path ≢ q
        → Apart path q
        → IsGenerated client t path
        → IsGenerated client (remove q t).1 path
    untouched q t n (a, b) g = record {
      certificate = g.certificate;
      key = g.key;
      read_certificate =
          removes.keeps q (certificate_path path) g.certificate t (λ e. b (sym e))
            (λ e. n (append_cancel_right path q (str "-cert.pub") e)) beside.1 g.read_certificate;
      commented = g.commented;
      read_key = removes.keeps q path g.key t n a beside.0 g.read_key;
      fits_key = g.fits_key;
    }

    Fate-remove :
        (q : Str) (t : fs.State)
        → Clear config path q
        → (remove q t).0 ≡ ok tt
        → Fate path t
        → Fate path (remove q t).1
    Fate-remove q t (b, a) r (inl g) = inl (stays q t g)
    Fate-remove q t (b, a) r (inr g) = elim (Bool-cases (path == q)) [
      | inl e ↦ inl (
          subst (IsRemoved client (remove q t).1) (sym ((str_beq_iff path q).0 e))
            ((λ c. removes.gone q c t b.0 r), (λ c. removes.gone_certificate q c t b.1 r)))
      | inr e ↦ inr (untouched q t (λ same. ground (arith, str_beq_iff path q)) a g)
    ]

    pub Fate-remove_all :
        (paths : List Str) (n : ℕ) (t : fs.State) (count : ℕ)
        → All (Clear config path) paths
        → Fate path t
        → (remove_all client remove paths n t).0 ≡ ok count
        → Fate path (remove_all client remove paths n t).1
    Fate-remove_all paths n t count all f h =
        remove_all-keeps_ok client config remove removes (Fate path) (Clear config path)
          (λ q t s r f. Fate-remove q t s r f) paths n t count all f h

  module _ (laws : KeepsOthers fs) (path config : Str)
      (same : config ≡ config_path client laws client.home)
      (beside : Beside client config path) where
    abbrev DoneWell : fs.State → ℕ → Counted client → Type 0
    DoneWell s count c = Fate path s → (c.0 ≡ ok count) → Fate path c.1

    Fate-default :
        (order : List KeyType) (s : fs.State) (count : ℕ) (home : Option Str)
        → All (Clear config path) (default_of client laws order home)
        → DoneWell s count (
            with_home client
              (λ home. remove_all client (remove_pair client) (default_paths client order home) 0 s)
              s
              home)
    Fate-default order s count none all f h = f
    Fate-default order s count (some home) all f h =
        Fate-remove_all config path _ (remove_pair-Removes client laws config) beside _ 0 s count
          all f h

    Fate-in_dir :
        (dir : Str) (t : fs.State) (count : ℕ)
        → config ≡ config_of client dir
        → All (Clear config path) (opk_paths client laws dir t)
        → DoneWell t count (in_dir client dir t)
    Fate-in_dir dir t count c all = go (dir_exists client (fs.stat t dir)) (fs.read_dir t dir) all
      where
        go :
            (there : Bool) (r : Result FsError (List FileInfo))
            → All (Clear config path) (if there then entry_paths client laws dir r else [])
            → DoneWell t count (if there then in_entries client dir t r else (ok 0, t))
        go false r all f h = f
        go true (err e) all f h = f
        go true (ok entries) all f h =
            Fate-remove_all config path _
              (subst (λ d. Removes client config (remove_listed client d)) c
                (remove_listed-Removes client laws config))
              beside _ 0 t count all f h

    Fate-opk :
        (t : fs.State) (count : ℕ) (home : Option Str)
        → config ≡ config_path client laws home
        → All (Clear config path) (opk_of client laws t home)
        → DoneWell t count (with_home client (λ home. in_dir client (opk_dir client home) t) t home)
    Fate-opk t count none c all f h = f
    Fate-opk t count (some home) c all f h = Fate-in_dir (opk_dir client home) t count c all f h

    Fate-plus :
        (s : fs.State) (n count : ℕ) (r : Counted client)
        → ((m : ℕ) → DoneWell s m r)
        → DoneWell s count (plus client n r)
    Fate-plus s n count (ok m, t) g f h = g m f refl
    Fate-plus s n count (err e, t) g f h = cc

    Fate-and_opk_dir :
        (s : fs.State) (count : ℕ) (r : Counted client)
        → ((n : ℕ) → DoneWell s n r)
        → All (Clear config path) (opk_of client laws r.1 client.home)
        → DoneWell s count (and_opk_dir client r)
    unfolding remove_opk_ssh_dir_keys
    Fate-and_opk_dir s count (err e, t) g all f h = cc
    Fate-and_opk_dir s count (ok n, t) g all f h =
        Fate-plus t n count (remove_opk_ssh_dir_keys client t)
          (λ m. Fate-opk t m client.home same all) (g n f refl) h

    -- A run without an argument that succeeds leaves the key as it was, or removes both files.
    pub Fate-run :
        (order : List KeyType) (s : fs.State) (count : ℕ)
        → All (Clear config path) (run_paths client laws order s)
        → DoneWell s count (run client [] order s)
    unfolding run remove_default_ssh_dir_keys str_beq
    Fate-run order s count all f h =
        let (a1, a2) =
          All-of_append (Clear config path) (default_of client laws order client.home) _ all in
        Fate-and_opk_dir s count (remove_default_ssh_dir_keys client order s)
          (λ n. Fate-default order s n client.home a1) a2 f h

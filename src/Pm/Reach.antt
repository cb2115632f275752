-- ===== src/Pm/Reach.antt =====
-- Sequences of requests and releases of single pages (mm/pm.c), with the pages that are out: the
-- allocator never gives a page out twice.
use mimik.Base.{
  ℕ, suc, ◌*◌, ◌/◌, ◌≤◌, ◌≡◌, refl, Bool, true, [], ◌∷◌, arith, done, Outcome, ap, sym, subst, ◌∙◌,
}
use mimik.Memory.{Ptr}
use mimik.Page.{page_size}
use mimik.Pm.State.{bitmap_size, Pm}
use mimik.Pm.Lock.{pm_request_page, pm_try_release_page}
use mimik.Pm.Single.{Single, to_pm, IsReady}
use mimik.Pm.Pages.{Accounts, pm_request_page_lem, pm_try_release_page_lem}
use mimik.Pm.Held.{
  Pages, holds, without, NotIn, Distinct, AllLocked, total, agree, NotIn-locked, AllLocked-locked,
  held_page, Distinct-without, AllLocked-without,
}

module _ (alloc : Pm → Outcome (Ptr × Pm)) (depth fuel : ℕ) (start : Single) where
  -- The states that requests and releases lead to from `start`, with the pages that are out. A page
  -- is requested while two are free and the account has room; a page is released by its holder.
  pub data Reached : Pages → Single → Type 0 where
    begin : Reached [] start
    request :
        {p : ℕ} {h : Pages} (t : Single) {t' : Single}
        → Reached h t
        → 2 ≤ t.super.unset
        → page_size ≤ t.unused
        → pm_request_page alloc (suc depth) fuel (to_pm t) ≡ done (p, to_pm t')
        → Reached (p ∷ h) t'
    release :
        (p : ℕ) (b : Bool) {h : Pages} (t : Single) {t' : Single}
        → Reached h t
        → holds p h ≡ true
        → pm_try_release_page alloc depth fuel p (to_pm t) ≡ done (b, to_pm t')
        → Reached (without p h) t'

  pub record IsHeld (h : Pages) (t : Single) : Type 0 where
    pub ready : IsReady t
    pub distinct : Distinct h
    pub all_locked : AllLocked t h
    pub conserved : total t ≡ total start

  module _ (enough : bitmap_size ≤ fuel) where
    request-IsHeld :
        {p : ℕ} {h : Pages} (t : Single) {t' : Single}
        → IsHeld h t
        → 2 ≤ t.super.unset
        → page_size ≤ t.unused
        → pm_request_page alloc (suc depth) fuel (to_pm t) ≡ done (p, to_pm t')
        → IsHeld (p ∷ h) t'
    request-IsHeld {p} {h} t {t'} held more room run =
        let i = t.first_free in
        let (u, done_run, vacant, below, changed, accounts, ready) =
          pm_request_page_lem alloc depth fuel enough t held.ready more room in
        let same = agree (i * page_size) p u t' done_run run in
        subst (λ (x : Single). IsHeld (p ∷ h) x) same.1
          (subst (λ (q : ℕ). IsHeld (q ∷ h) u) same.0
            (record {
              ready = ready;
              distinct = (
                NotIn-locked t h (i * page_size) (rw (back i) vacant) held.all_locked,
                held.distinct,
              );
              all_locked = (
                ground (arith, changed (i * page_size / 4096), back i),
                omega arith,
                omega (arith, held.ready.in_range),
                AllLocked-locked t u i h changed held.all_locked,
              );
              conserved = omega (arith, held.conserved);
            }))
      where
        back : (i : ℕ) → i * page_size / 4096 ≡ i
        back i = omega arith

    -- A page that is out can be released: the call returns true.
    release-IsHeld :
        (p : ℕ) (b : Bool) {h : Pages} (t : Single) {t' : Single}
        → IsHeld h t
        → holds p h ≡ true
        → pm_try_release_page alloc depth fuel p (to_pm t) ≡ done (b, to_pm t')
        → (b ≡ true) × IsHeld (without p h) t'
    release-IsHeld p b {h} t {t'} held there run =
        let (was, aligned, low) = held_page t p h there held.all_locked in
        let (c, u, done_run, answer, changed, accounts, ready) =
          pm_try_release_page_lem alloc depth fuel enough t p low held.ready in
        let same = agree c b u t' done_run run in
        let yes : c ≡ true = ground arith in
        (
          sym same.0 ∙ yes,
          subst (λ (x : Single). IsHeld (without p h) x) same.1
              (record {
                ready = ready;
                distinct = Distinct-without p h held.distinct;
                all_locked =
                    AllLocked-without t u p h aligned changed held.distinct held.all_locked;
                conserved = ground (arith, held.conserved, moved_back t u);
              }),
        )
      where
        moved_back :
            (t u : Single) → Accounts true t.unused t.used u.unused u.used → total u ≡ total t
        moved_back t u accounts = omega arith

    -- In every state that requests and releases lead to, `first_free` is the least index of a free
    -- page, no page is out twice, every page that is out is locked, and the bytes in the two
    -- accounts are as many as at the start, as a word.
    pub Reached-IsHeld : {h : Pages} {t : Single} → IsReady start → Reached h t → IsHeld h t
    Reached-IsHeld ready begin = record {
      ready = ready;
      distinct = tt;
      all_locked = tt;
      conserved = refl;
    }
    Reached-IsHeld ready (request t before more room run) =
        request-IsHeld t (Reached-IsHeld ready before) more room run
    Reached-IsHeld ready (release p b t before there run) =
        (release-IsHeld p b t (Reached-IsHeld ready before) there run).1

    -- In every such state with two free pages and room in the account, a request returns a page that
    -- is not out, and the state with that page out is reached.
    pub Reached-request :
        {h : Pages} (t : Single)
        → IsReady start
        → Reached h t
        → 2 ≤ t.super.unset
        → page_size ≤ t.unused
        → (p : ℕ) × (t' : Single) × (pm_request_page alloc (suc depth) fuel (to_pm t)
            ≡ done (p, to_pm t'))
          × NotIn p h
          × Reached (p ∷ h) t'
    Reached-request {h} t ready before more room =
        let held = Reached-IsHeld ready before in
        let (u, run, vacant, below, changed, accounts, ready') =
          pm_request_page_lem alloc depth fuel enough t held.ready more room in
        (
          t.first_free * page_size,
          u,
          run,
          (request-IsHeld t held more room run).distinct.0,
          request t before more room run,
        )

    -- Every page that is out can be released: the call returns true, and the state without it is
    -- reached.
    pub Reached-release :
        {h : Pages} (t : Single) (p : ℕ)
        → IsReady start
        → Reached h t
        → holds p h ≡ true
        → (t' : Single) × (pm_try_release_page alloc depth fuel p (to_pm t) ≡ done (true, to_pm t'))
          × Reached (without p h) t'
    Reached-release {h} t p ready before there =
        let held = Reached-IsHeld ready before in
        let (was, aligned, low) = held_page t p h there held.all_locked in
        let (c, u, run, answer, changed, accounts, ready') =
          pm_try_release_page_lem alloc depth fuel enough t p low held.ready in
        let yes : c ≡ true = ground arith in
        let run' = run ∙ ap (λ (b : Bool). done (b, to_pm u)) yes in
        (u, run', release p true t before there run')

-- ===== src/Steps/S3/Pages.antt =====
-- The pages that deleteAllVersions reads, and what Compensate of the S3 step makes of them.
use env_forge.Prelude.{
  ◌≡◌, ◌≢◌, refl, ℕ, zero, suc, ◌<◌, ◌≤◌, Bool, true, false, not, is_empty, List, [], ◌∷◌, ◌++◌,
  Text, lit, arith,
}
use env_forge.Environment.{Environment}
use env_forge.Go.{Result, ok, err, panic, hung, wrapped}
use env_forge.Cloud.{Call, Oracle, VersionPage, ObjectId, next_version_page, delete_objects}
use env_forge.Action.{
  StateClient, Run, Action, continue, ◌>>=◌, ◌>>◌, pure, context, call, invoke, put, set_env,
  get_env, when, choose, drop_answer,
}
use env_forge.Steps.S3.{
  to_delete, is_nil, clear, delete_page, delete_all_versions, tear_down, compensate,
}

-- Every call comes back. S3's listing of a bucket is finite: `remaining` is a bound, known from the
-- calls made before, on the pages that are still to come; it falls with each page that has another
-- after it, and a deletion of objects does not raise it.
pub record IsPaged (o : Oracle) (bucket : Text) (remaining : List Call → ℕ) : Type 0 where
  pub answers : (before : List Call) (x : Call) → o before x ≢ hung
  pub falls :
      (before : List Call) (page : VersionPage)
      → o before (next_version_page bucket) ≡ ok page
      → page.more ≡ true
      → remaining (before ++ next_version_page bucket ∷ []) < remaining before
  pub keeps :
      (before : List Call) (objects : List ObjectId)
      → remaining (before ++ delete_objects bucket objects ∷ []) ≤ remaining before

wrapped-ne : {A : Type 0} (what : Text) (r : Result A) → r ≢ hung → wrapped what r ≢ hung
wrapped-ne what (ok a) n h = cc h
wrapped-ne what (err e) n h = cc h
wrapped-ne what panic n h = cc h
wrapped-ne what hung n h = n refl

drop_answer-ne : {A : Type 0} (r : Result A) → r ≢ hung → drop_answer r ≢ hung
drop_answer-ne (ok a) n h = cc h
drop_answer-ne (err e) n h = cc h
drop_answer-ne panic n h = cc h
drop_answer-ne hung n h = n refl

module _ {D : Type 0} where
  continue-Ends :
      {A B : Type 0} (r : Result A) (f : A → Action D B) (s : Run D)
      → r ≢ hung
      → ((a : A) → (f a s).0 ≢ hung)
      → (continue r f s).0 ≢ hung
  continue-Ends (ok a) f s n k h = k a h
  continue-Ends (err e) f s n k h = cc h
  continue-Ends panic f s n k h = cc h
  continue-Ends hung f s n k h = n refl

  module _ (o : Oracle) (bucket : Text) (remaining : List Call → ℕ)
      (paged : IsPaged o bucket remaining) where
    -- what follows a page
    abbrev rest_of : VersionPage → Action D Bool
    rest_of page =
        when (not (is_nil (to_delete page)))
          (context (lit "delete objects") (invoke o (delete_objects bucket (to_delete page))))
        >> pure page.more

    abbrev Goes : (before after : Run D) → Result Bool → Bool → Type 0
    Goes before after r more =
        (r ≢ hung)
        × (r ≡ ok true → (more ≡ true) × (remaining after.calls ≤ remaining before.calls))

    deleted-Goes :
        (r : Result (Unit {0})) (page : VersionPage) (s t : Run D)
        → r ≢ hung
        → remaining t.calls ≤ remaining s.calls
        → Goes s
            (continue r (λ _. pure page.more) t).1
            (continue r (λ _. pure page.more) t).0
            page.more
    unfolding pure
    deleted-Goes (ok _) page s t n k = (λ h. cc h, λ h. (cc h, k))
    deleted-Goes (err e) page s t n k = (λ h. cc h, λ h. absurd (cc h))
    deleted-Goes panic page s t n k = (λ h. cc h, λ h. absurd (cc h))
    deleted-Goes hung page s t n k = absurd (n refl)

    rest_of-Goes :
        (b : Bool) (page : VersionPage) (s : Run D)
        → (let m =
              when b
                (context (lit "delete objects") (invoke o (delete_objects bucket (to_delete page))))
              >> pure page.more in
            Goes s (m s).1 (m s).0 page.more)
    unfolding when context invoke pure ◌>>◌ ◌>>=◌
    rest_of-Goes true page s =
        deleted-Goes _ page s _ (wrapped-ne _ _ (drop_answer-ne _ (paged.answers _ _)))
          (paged.keeps s.calls (to_delete page))
    rest_of-Goes false page s = deleted-Goes (ok tt) page s s (λ h. cc h) (omega arith)

    asked : Run D → Run D
    asked s = record s { calls = s.calls ++ next_version_page bucket ∷ [] }

    page-Goes :
        (r : Result VersionPage) (s : Run D)
        → o s.calls (next_version_page bucket) ≡ r
        → (let x = continue (wrapped (lit "list object versions") r) rest_of (asked s) in
            (x.0 ≢ hung) × (x.0 ≡ ok true → remaining x.1.calls < remaining s.calls))
    unfolding asked
    page-Goes (ok page) s e =
        let (ends, on) = rest_of-Goes (not (is_nil (to_delete page))) page (asked s) in
        (
          ends,
          λ h. let (more, kept) = on h in let less = paged.falls s.calls page e more in omega arith,
        )
    page-Goes (err e) s h = (λ f. cc f, λ f. absurd (cc f))
    page-Goes panic s h = (λ f. cc f, λ f. absurd (cc f))
    page-Goes hung s h = absurd (paged.answers s.calls (next_version_page bucket) h)

    delete_page-Goes :
        (s : Run D)
        → ((delete_page o bucket s).0 ≢ hung)
          × ((delete_page o bucket s).0 ≡ ok true
              → remaining (delete_page o bucket s).1.calls < remaining s.calls)
    unfolding delete_page context call ◌>>=◌ asked
    delete_page-Goes s = page-Goes (o s.calls (next_version_page bucket)) s refl

    -- the loop, from what a page came back with
    paged-Ends :
        (fuel : ℕ) (r : Result Bool) (s : Run D)
        → r ≢ hung
        → (r ≡ ok true → (delete_all_versions o fuel bucket s).0 ≢ hung)
        → (continue r (λ more. choose more (delete_all_versions o fuel bucket) (pure tt)) s).0
          ≢ hung
    unfolding choose pure
    paged-Ends fuel (ok true) s n k h = k refl h
    paged-Ends fuel (ok false) s n k h = cc h
    paged-Ends fuel (err e) s n k h = cc h
    paged-Ends fuel panic s n k h = cc h
    paged-Ends fuel hung s n k h = n refl

    delete_all_versions-ne :
        (fuel : ℕ) (s : Run D)
        → remaining s.calls < fuel
        → (delete_all_versions o fuel bucket s).0 ≢ hung
    unfolding delete_all_versions ◌>>=◌
    delete_all_versions-ne zero s less = absurd (omega arith)
    delete_all_versions-ne (suc fuel) s less =
        let (ends, on) = delete_page-Goes s in
        paged-Ends fuel (delete_page o bucket s).0 (delete_page o bucket s).1 ends (λ h.
          let fewer = on h in delete_all_versions-ne fuel (delete_page o bucket s).1 (omega arith))

  choose-ne :
      (b : Bool) (m n : Action D (Unit {0})) (s : Run D)
      → (m s).0 ≢ hung
      → (n s).0 ≢ hung
      → (choose b m n s).0 ≢ hung
  unfolding choose
  choose-ne true m n s h k = h
  choose-ne false m n s h k = k

  pure-ne : (s : Run D) → (pure tt s).0 ≢ hung
  unfolding pure
  pure-ne s h = cc h

  module _ (fuel : ℕ) (region : Text) (o : Oracle) (c : StateClient D) where
    put-ne : ((e : Environment) (d : D) → (c.put e d).0 ≢ hung) → (s : Run D) → (put c s).0 ≢ hung
    unfolding put
    put-ne stores s = stores s.env s.db

    then_put-ne :
        ((e : Environment) (d : D) → (c.put e d).0 ≢ hung)
        → (s : Run D) → ((set_env clear >> put c) s).0 ≢ hung
    unfolding set_env ◌>>◌ ◌>>=◌
    then_put-ne stores s = put-ne stores _

    tear_down-ne :
        (bucket : Text) (remaining : List Call → ℕ) (paged : IsPaged o bucket remaining)
        → ((e : Environment) (d : D) → (c.put e d).0 ≢ hung)
        → (s : Run D) → remaining s.calls < fuel
        → (tear_down fuel region o c bucket s).0 ≢ hung
    unfolding tear_down ◌>>◌ ◌>>=◌ context invoke set_env
    tear_down-ne bucket remaining paged stores s less =
        continue-Ends _ _ _ (delete_all_versions-ne o bucket remaining paged fuel s less) (λ _.
          continue-Ends _ _ _ (wrapped-ne _ _ (drop_answer-ne _ (paged.answers _ _)))
            (λ _. put-ne stores _))

    -- Compensate of the S3 step comes back, with a result or an error, where every call and every Put
    -- does, and where the listing of the environment's bucket is finite: if the model follows more
    -- pages than are left by the time of the compensation, the loop over them ends.
    pub compensate-ne_hung :
        (remaining : List Call → ℕ) (s : Run D)
        → IsPaged o s.env.s3_bucket_name remaining
        → ((e : Environment) (d : D) → (c.put e d).0 ≢ hung)
        → remaining s.calls < fuel
        → (compensate fuel region o c s).0 ≢ hung
    unfolding compensate get_env ◌>>=◌
    compensate-ne_hung remaining s paged stores less =
        choose-ne s.env.dry_run _ _ s (then_put-ne stores s) (
          choose-ne (is_empty s.env.s3_bucket_name) _ _ s (pure-ne s)
            (tear_down-ne s.env.s3_bucket_name remaining paged stores s less))

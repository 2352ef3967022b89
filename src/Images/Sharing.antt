-- ===== src/Images/Sharing.antt =====
-- Every way to use the cache, and the owner's future that each key has at most.
use llm_aio_gateway.Prelude.{
  ℕ, ◌<◌, ◌≡◌, sym, ap, ◌∙◌, String, Bool, true, false, some, List, [], nat_eq, string_eq, arith,
}
use llm_aio_gateway.Dict.{get, keys}
use llm_aio_gateway.Images.Defs.{
  Entry, Invocations, Claim, Settings, is_complete, is_done, invalidate, clear, claim, resolve,
  reject,
}
use llm_aio_gateway.Images.Dropping.{IsTracked, is_claimed, drop_complete-IsTracked}
use llm_aio_gateway.Images.Adding.{with_claim, claim-IsTracked}
use llm_aio_gateway.Images.Withdrawn.{
  without, IsGone, invalidate-IsTracked, clear-IsTracked, reject_late-IsTracked,
}
use llm_aio_gateway.Images.Settling.{resolve-IsTracked, reject-IsTracked}

module _ {V E : Type 0} where
  -- The caches that a process comes to, with the claims that were made and have not been withdrawn:
  -- claims with any settings at any time, each resolved or rejected at any time; a key is invalidated, and
  -- its claims are withdrawn unless its entry is complete; all is cleared, and all claims are withdrawn. The
  -- owner of a withdrawn claim may still resolve it or reject it, with a future that no entry has.
  pub data Reach : Invocations V E → List (String × ℕ) → Type 0 where
    start : Reach (record { entries = []; settled = []; next_future = 0 }) []
    claims :
        (k : String) (c : Settings) (now : ℕ) (s : Invocations V E) (cs : List (String × ℕ))
        → Reach s cs
        → Reach (claim k c now s).0 (with_claim (claim k c now s).1 cs)
    resolves :
        (c : Claim) (value : V) (now : ℕ) (s : Invocations V E) (cs : List (String × ℕ))
        → Reach s cs
        → Reach (resolve c value now s) cs
    rejects :
        (is_cancelled : E → Bool) (c : Claim) (exc : E) (s : Invocations V E)
        (cs : List (String × ℕ))
        → Reach s cs
        → is_claimed c.key c.future cs ≡ true
        → Reach (reject is_cancelled c exc s) cs
    invalidates :
        (k : String) (entry : Entry) (s : Invocations V E) (cs : List (String × ℕ))
        → Reach s cs
        → get k s.entries ≡ some entry
        → is_complete entry ≡ true
        → Reach (invalidate k s) cs
    withdraws :
        (k : String) (s : Invocations V E) (cs : List (String × ℕ))
        → Reach s cs
        → Reach (invalidate k s) (without k cs)
    clears : (s : Invocations V E) (cs : List (String × ℕ)) → Reach s cs → Reach (clear s) []
    rejects_late :
        (is_cancelled : E → Bool) (c : Claim) (exc : E) (s : Invocations V E)
        (cs : List (String × ℕ))
        → Reach s cs
        → c.future < s.next_future
        → IsGone c.future s
        → Reach (reject is_cancelled c exc s) cs

  pub Reach-IsTracked : (s : Invocations V E) (cs : List (String × ℕ)) → Reach s cs → IsTracked s cs
  unfolding is_claimed get is_done keys
  Reach-IsTracked _ _ start = record {
    known = λ k entry found. cc;
    known_done = λ f done. cc;
    known_claim = λ k f claimed. cc;
    timely = λ k entry found. cc;
    apart = λ j k a b found found' same. cc;
    distinct = tt;
    kept = λ k f claimed waits. cc;
  }
  Reach-IsTracked _ _ (claims k c now s cs r) =
      claim-IsTracked k c now s cs (Reach-IsTracked s cs r)
  Reach-IsTracked _ _ (resolves c value now s cs r) =
      resolve-IsTracked c value now s cs (Reach-IsTracked s cs r)
  Reach-IsTracked _ _ (rejects is_cancelled c exc s cs r claimed) =
      reject-IsTracked is_cancelled c exc s cs (Reach-IsTracked s cs r) claimed
  Reach-IsTracked _ _ (invalidates k entry s cs r here whole) =
      drop_complete-IsTracked k s cs (λ e found. ground (arith, here, found, whole))
        (Reach-IsTracked s cs r)
  Reach-IsTracked _ _ (withdraws k s cs r) = invalidate-IsTracked k s cs (Reach-IsTracked s cs r)
  Reach-IsTracked _ _ (clears s cs r) = clear-IsTracked s cs (Reach-IsTracked s cs r)
  Reach-IsTracked _ _ (rejects_late is_cancelled c exc s cs r made gone) =
      reject_late-IsTracked is_cancelled c exc s cs made gone (Reach-IsTracked s cs r)

  -- However the cache is used: two claims of one key whose futures are not settled, and which no
  -- invalidation of an entry in flight and no clearing has withdrawn, have the same future, and it is the
  -- one of the entry at the key, which is in flight.
  pub one_owner :
      (s : Invocations V E) (cs : List (String × ℕ)) (k : String) (f g : ℕ)
      → Reach s cs
      → is_claimed k f cs ≡ true
      → is_claimed k g cs ≡ true
      → is_done f s ≡ false
      → is_done g s ≡ false
      → (f ≡ g)
        × (entry : Entry) × (get k s.entries ≡ some entry)
        × (entry.future ≡ f)
        × (is_complete entry ≡ false)
  one_owner s cs k f g r claimed claimed' waits waits' =
      let t = Reach-IsTracked s cs r in
      let (entry, found, eq) = t.kept k f claimed waits in
      let (other, found', eq') = t.kept k g claimed' waits' in
      (
        ground (arith, found, found', eq, eq'),
        entry,
        found,
        eq,
        sym (t.timely k entry found) ∙ ap (λ n. is_done n s) eq ∙ waits,
      )

-- ===== src/Wtpool/Pool/Release/Safety.antt =====
-- What a release keeps and what it leaves.
use mcp_tools.Prelude.{
  ◌≡◌, ◌⊎◌, inl, inr, refl, ap, ◌∙◌, arith, Bool, true, false, Str, str, str_eq, str_eq_iff,
  Bool-cases,
}
use mcp_tools.Prelude.Result.{ok, Result-cases}
use mcp_tools.Wtpool.Lease.Contract.{path_starts_with}
use mcp_tools.Wtpool.Pool.{System, Head, pool_root, components, is_dirty, main_tip_of}
use mcp_tools.Wtpool.Pool.Gates.{
  Checked, canonical, is_reachable_from, refuse_dirty, refuse_unmerged, gates,
}
use mcp_tools.Wtpool.Pool.Release.{clean_slot, verify_post_release, release_slot, pool_release}

module _ {W : Type 0} (sys : System W) where
  -- The slot lies in the pool, and the commit is the tip of main.
  pub record IsSlot (repo_root : Str) (c : Checked) (w : W) : Type 0 where
    pub inside :
        path_starts_with (components c.canon) (components (canonical sys (pool_root repo_root) w))
        ≡ true
    pub tip : main_tip_of sys repo_root (str "resolve main tip") w ≡ ok c.main_tip
    pub at_head : sys.head c.canon w ≡ ok c.head

  -- Main has every commit of the slot's branch, if the slot is on one.
  abbrev pub IsMerged : Str → Checked → W → Type 0
  IsMerged repo_root c w =
      (c.head.is_branch ≡ false)
      ⊎ ((oid : Str) × (c.head.commit ≡ ok oid)
          × ((oid ≡ c.main_tip)
              ⊎ ((sys.ahead c.canon oid c.main_tip w ≡ ok 0)
                  ⊎ (is_reachable_from sys repo_root oid c.main_tip w ≡ true))))

  gates-IsSlot :
      (repo_root path : Str) (force : Bool) (c : Checked) (w : W)
      → gates sys repo_root path force w ≡ ok c
      → IsSlot repo_root c w
  unfolding gates
  gates-IsSlot repo_root path force c w h = record {
    inside = ground arith;
    tip = ground arith;
    at_head = ground arith;
  }

  refuse_unmerged-ok :
      (repo_root : Str) (c : Checked) (w : W)
      → refuse_unmerged sys repo_root c.canon c.head c.main_tip w ≡ ok tt
      → IsMerged repo_root c w
  unfolding refuse_unmerged
  refuse_unmerged-ok repo_root c w h = elim (Result-cases c.head.commit) [
    | inr (e, none_there) ↦ absurd (ground arith)
    | inl (oid, peels) ↦ elim (Bool-cases (str_eq oid c.main_tip)) [
      | inl same ↦ inr (oid, peels, inl ((str_eq_iff oid c.main_tip).0 same))
      | inr other ↦ elim (Result-cases (sys.ahead c.canon oid c.main_tip w)) [
        | inr (e, unknown) ↦ absurd (ground arith)
        | inl (n, counted) ↦ elim (Bool-cases (is_reachable_from sys repo_root oid c.main_tip w)) [
          | inl reached ↦ inr (oid, peels, inr (inr reached))
          | inr lost ↦
              let zero_ahead : n ≡ 0 = ground arith in
              inr (oid, peels, inr (inl (rw zero_ahead at counted)))
        ]
      ]
    ]
  ]

  refuse_dirty-ok :
      (canon : Str) (w : W) → refuse_dirty sys canon w ≡ ok tt → is_dirty sys canon w ≡ ok false
  unfolding refuse_dirty
  refuse_dirty-ok canon w h = ground arith

  gates-keep_work :
      (repo_root path : Str) (c : Checked) (w : W)
      → gates sys repo_root path false w ≡ ok c
      → (is_dirty sys c.canon w ≡ ok false) × IsMerged repo_root c w
  unfolding gates
  gates-keep_work repo_root path c w h =
      let clean : refuse_dirty sys c.canon w ≡ ok tt = ground arith in
      (
        refuse_dirty-ok c.canon w clean,
        elim (Bool-cases c.head.is_branch) [
          | inr off ↦ inl off
          | inl on ↦
              let merged : refuse_unmerged sys repo_root c.canon c.head c.main_tip w ≡ ok tt =
                ground arith in
              refuse_unmerged-ok repo_root c w merged
        ],
      )

  -- A release without force changes nothing on the machine, or the slot that it works on lies in the
  -- pool, has a working tree that is clean but for `.cargo`, and is on no branch or on one whose
  -- commits main has.
  pub pool_release-keeps_work :
      (repo_root path : Str) (w : W)
      → ((pool_release sys repo_root path false w).1 ≡ w)
        ⊎ ((c : Checked) × (gates sys repo_root path false w ≡ ok c)
            × IsSlot repo_root c w
            × (is_dirty sys c.canon w ≡ ok false)
            × IsMerged repo_root c w)
  unfolding pool_release
  pool_release-keeps_work repo_root path w =
      elim (Result-cases (gates sys repo_root path false w)) [
        | inr (e, refused) ↦ inl (rw refused refl)
        | inl (c, passed) ↦
            let (clean, merged) = gates-keep_work repo_root path c w passed in
            inr (c, passed, gates-IsSlot repo_root path false c w passed, clean, merged)
      ]

  -- On the tip of main, on no branch, and with a working tree that is clean but for `.cargo`.
  pub record IsPristine (slot main_tip : Str) (w : W) : Type 0 where
    pub head : Head
    pub at_head : sys.head slot w ≡ ok head
    pub detached : head.is_branch ≡ false
    pub at_tip : head.commit ≡ ok main_tip
    pub clean : is_dirty sys slot w ≡ ok false

  verify-IsPristine :
      (canon main_tip : Str) (w : W)
      → (verify_post_release sys canon main_tip w).0 ≡ ok tt
      → IsPristine canon main_tip w
  unfolding verify_post_release
  verify-IsPristine canon main_tip w h = elim (Result-cases (sys.head canon w)) [
    | inr (e, none_there) ↦ absurd (ground arith)
    | inl (head, at_head) ↦ elim (Result-cases head.commit) [
      | inr (e, no_commit) ↦ absurd (ground arith)
      | inl (tip, peels) ↦
          let same : str_eq tip main_tip ≡ true = ground arith in
          record {
            head = head;
            at_head = at_head;
            detached = ground arith;
            at_tip = peels ∙ ap ok ((str_eq_iff tip main_tip).0 same);
            clean = ground arith;
          }
    ]
  ]

  verify-keeps : (canon main_tip : Str) (w : W) → (verify_post_release sys canon main_tip w).1 ≡ w
  unfolding verify_post_release
  verify-keeps canon main_tip w = ground arith

  release_slot-ok :
      (repo_root : Str) (c : Checked) (w : W) (slot : Str)
      → (release_slot sys repo_root c w).0 ≡ ok slot
      → (slot ≡ c.canon) × IsPristine slot c.main_tip (release_slot sys repo_root c w).1
  unfolding release_slot
  release_slot-ok repo_root c w slot h = elim (Result-cases (clean_slot sys repo_root c w).0) [
    | inr (e, failed) ↦ absurd (let g = rw failed at h in cc)
    | inl (u, cleaned) ↦
        let left = (clean_slot sys repo_root c w).1 in
        elim (Result-cases (verify_post_release sys c.canon c.main_tip left).0) [
          | inr (e, failed) ↦ absurd (let g = rw (cleaned, failed) at h in cc)
          | inl (tt, verified) ↦
              let g : ok c.canon ≡ ok slot = rw (cleaned, verified) at h in
              let same : slot ≡ c.canon = cc in
              (
                same,
                rw (same, cleaned, verified, verify-keeps c.canon c.main_tip left)
                    (verify-IsPristine c.canon c.main_tip left verified),
              )
        ]
  ]

  -- A release that succeeds leaves the slot, a directory of the pool, on no branch, at the commit that
  -- was the tip of main, and with a working tree that is clean but for `.cargo`.
  pub pool_release-IsPristine :
      (repo_root path : Str) (force : Bool) (w : W) (slot : Str)
      → (pool_release sys repo_root path force w).0 ≡ ok slot
      → (c : Checked) × (slot ≡ c.canon)
        × IsSlot repo_root c w
        × IsPristine slot c.main_tip (pool_release sys repo_root path force w).1
  unfolding pool_release
  pool_release-IsPristine repo_root path force w slot h =
      elim (Result-cases (gates sys repo_root path force w)) [
        | inr (e, refused) ↦ absurd (let g = rw refused at h in cc)
        | inl (c, passed) ↦
            let (same, pristine) = release_slot-ok repo_root c w slot (rw passed at h) in
            (c, same, gates-IsSlot repo_root path force c w passed, rw passed pristine)
      ]

-- ===== src/StableHeap/Order.antt =====
-- The order of compare_stable_prio.
use dasynq.Prelude.{◌≡◌, true, false, arith}
use dasynq.Prelude.Compare.{Compare}
use dasynq.StableHeap.Defs.{StablePrio, compare_stable_prio}

module _ {P : Type 0} (cmp : Compare P) where
  pub compare_stable_prio-asymm :
      (a b : StablePrio P)
      → compare_stable_prio cmp.lt a b ≡ true
      → compare_stable_prio cmp.lt b a ≡ false
  unfolding compare_stable_prio
  compare_stable_prio-asymm a b e = ground (arith, cmp.asymm a.p b.p, cmp.asymm b.p a.p)

  pub compare_stable_prio-le_trans :
      (a b c : StablePrio P)
      → compare_stable_prio cmp.lt b a ≡ false
      → compare_stable_prio cmp.lt c b ≡ false
      → compare_stable_prio cmp.lt c a ≡ false
  unfolding compare_stable_prio
  compare_stable_prio-le_trans a b c h k = ground (
    arith,
    cmp.asymm a.p b.p,
    cmp.asymm b.p a.p,
    cmp.asymm b.p c.p,
    cmp.asymm c.p b.p,
    cmp.asymm a.p c.p,
    cmp.asymm c.p a.p,
    cmp.le_trans a.p b.p c.p,
    cmp.le_trans c.p b.p a.p,
    cmp.le_trans b.p c.p a.p,
    cmp.le_trans c.p a.p b.p,
    cmp.le_trans a.p c.p b.p,
    cmp.le_trans b.p a.p c.p,
  )

  abbrev pub stable_compare : Compare (StablePrio P)
  stable_compare = record {
    lt = compare_stable_prio cmp.lt;
    asymm = compare_stable_prio-asymm;
    le_trans = compare_stable_prio-le_trans;
  }

-- ===== src/Proof/Leader/Examples.antt =====
-- Runs of internal/proof/leader.go: two replicas compete for a free key.
use proofgate.Base.{◌≡◌, ◌≢◌, refl, true, false, Option, none, some, arith, if◌then◌else◌}
use proofgate.Base.Bytes.{Bytes, codes, str_eq, str_eq_refl, str_eq_iff}
use proofgate.Proof.Leader.{
  LeaseRedis, LeaseLaws, is_none, renew_script, step, release_lease, release_script,
}
use proofgate.Proof.Leader.Election.{
  Cluster, IsCluster, put, steps, start, snoc, at_most_one_leader,
}

abbrev Cells : Type 0
Cells = Bytes → Option Bytes

abbrev write : Cells → Bytes → Option Bytes → Cells
write s k v k' = if str_eq k k' then v else s k'

-- Keys without expiry.
abbrev leases : LeaseRedis
leases = record {
  Store = Cells;
  reachable = λ s. true;
  replies = λ s. true;
  get = λ s k. s k;
  set_nx = λ s k v ttl. (is_none (s k), if is_none (s k) then write s k (some v) else s);
  pexpire = λ s k ttl. s;
  del = λ s k. write s k none;
}

lease_laws : LeaseLaws leases
lease_laws = record {
  set_nx_done = λ s k v ttl. refl;
  get-set_nx = λ s k v ttl h. ground (arith, str_eq_refl k);
  get-pexpire = λ s k ttl h. refl;
  get-del = λ s k. ground (arith, str_eq_refl k);
}

abbrev key : Bytes
key = codes "proof:leader"

abbrev opening : Cluster leases lease_laws
opening = record {
  replica = λ id. record {
    instance_id = id;
    key = key;
    ttl = 30_000;
    renew_every = 10_000;
    is_leader = false;
  };
  leaving = λ id. false;
  store = λ k. none;
}

opening-IsCluster : IsCluster leases lease_laws key opening
opening-IsCluster = record { own_id = λ id. refl; one_key = λ id. refl; lease = λ id. omega arith }

abbrev first : Cluster leases lease_laws
first =
    put leases lease_laws opening (codes "a")
      (step leases (opening.replica (codes "a")) opening.store)

abbrev second : Cluster leases lease_laws
second =
    put leases lease_laws first (codes "b") (step leases (first.replica (codes "b")) first.store)

leads : (second.replica (codes "a")).is_leader ≡ true
unfolding step renew_script str_eq
leads = refl

b_apart : codes "b" ≢ codes "a"
unfolding str_eq
b_apart = λ h. ground (arith, (str_eq_iff (codes "b") (codes "a")).1 h)

at_most_one_leader_example : (second.replica (codes "b")).is_leader ≡ false
at_most_one_leader_example =
    at_most_one_leader leases lease_laws key opening second (codes "a") (codes "b")
      opening-IsCluster (λ id. refl)
      (snoc first second (snoc opening first start (steps opening (codes "a") refl))
        (steps first (codes "b") refl))
      refl leads b_apart refl

-- In the release of `a`, before its flag is cleared, `b` acquires the lease: both believe they lead.
abbrev leaving : Cluster leases lease_laws
leaving = record second {
  leaving = λ j. str_eq (codes "a") j;
  store = release_lease leases (second.replica (codes "a")) second.store;
}

abbrev third : Cluster leases lease_laws
third =
    put leases lease_laws leaving (codes "b")
      (step leases (leaving.replica (codes "b")) leaving.store)

both_lead :
    ((third.replica (codes "a")).is_leader ≡ true) × ((third.replica (codes "b")).is_leader ≡ true)
unfolding step renew_script release_lease release_script str_eq
both_lead = (refl, refl)

-- ===== src/Proof/Leader/Election.antt =====
-- At most one replica leads (internal/proof/leader.go).
use proofgate.Base.{
  ◌<◌, ◌≡◌, ◌≢◌, inl, inr, sym, ◌∙◌, Bool, true, false, some, Bool-cases, arith, Option-cases,
  if◌then◌else◌,
}
use proofgate.Base.Bytes.{Bytes, str_eq, str_eq_iff}
use proofgate.Proof.Leader.{
  LeaseRedis, LeaseLaws, Leader, renew_script, release_script, step, release_lease, release_flag,
}

module _ (R : LeaseRedis) (laws : LeaseLaws R) where
  -- Behind a step, a replica believes that it leads only if the key holds its id.
  step_holder :
      (l : Leader) (s : R.Store)
      → 0 < l.ttl
      → (step R l s).0.is_leader ≡ true
      → R.get (step R l s).1 l.key ≡ some l.instance_id
  unfolding step renew_script
  step_holder l s h e = elim (Option-cases (R.get s l.key)) [
    | inl z ↦ ground (
      arith,
      laws.set_nx_done s l.key l.instance_id l.ttl,
      laws.get-set_nx s l.key l.instance_id l.ttl h,
    )
    | inr (v, z) ↦ ground (
      arith,
      laws.set_nx_done s l.key l.instance_id l.ttl,
      laws.get-pexpire s l.key l.ttl h,
      str_eq_iff v l.instance_id,
    )
  ]

  -- A step leaves a key that is taken as it is.
  step_keeps :
      (l : Leader) (s : R.Store) (v : Bytes)
      → 0 < l.ttl
      → R.get s l.key ≡ some v
      → R.get (step R l s).1 l.key ≡ some v
  unfolding step renew_script
  step_keeps l s v h e = ground (
    arith,
    laws.set_nx_done s l.key l.instance_id l.ttl,
    laws.get-set_nx s l.key l.instance_id l.ttl h,
    laws.get-pexpire s l.key l.ttl h,
  )

  step_fields :
      (l : Leader) (s : R.Store)
      → ((step R l s).0.instance_id ≡ l.instance_id)
        × ((step R l s).0.key ≡ l.key)
        × ((step R l s).0.ttl ≡ l.ttl)
  unfolding step renew_script
  step_fields l s = ground arith

  -- The replicas by their ids, which of them have begun their release, and the store they share.
  pub record Cluster : Type 0 where
    pub replica : Bytes → Leader
    pub leaving : Bytes → Bool
    pub store : R.Store

  abbrev pub put : Cluster → Bytes → Leader × R.Store → Cluster
  put c id (l, s) = record c { replica = λ j. if str_eq id j then l else c.replica j; store = s }

  -- A replica steps, begins its release, behind which it does not step any more, or ends it; or
  -- something happens that leaves the key as it is, such as the loss of a connection. The lease does
  -- not end.
  pub data ClusterStep (key : Bytes) : Cluster → Cluster → Type 0 where
    steps :
        (c : Cluster) (id : Bytes)
        → c.leaving id ≡ false
        → ClusterStep key c (put c id (step R (c.replica id) c.store))
    release_begins :
        (c : Cluster) (id : Bytes)
        → c.leaving id ≡ false
        → ClusterStep key c (record c {
          leaving = λ j. if str_eq id j then true else c.leaving j;
          store = release_lease R (c.replica id) c.store;
        })
    release_ends :
        (c : Cluster) (id : Bytes)
        → c.leaving id ≡ true
        → ClusterStep key c (put c id (release_flag (c.replica id), c.store))
    elsewhere :
        (c : Cluster) (s : R.Store)
        → R.get s key ≡ R.get c.store key
        → ClusterStep key c (record c { store = s })

  pub data ClusterSteps (key : Bytes) (a : Cluster) : Cluster → Type 0 where
    start : ClusterSteps key a a
    snoc : (b c : Cluster) → ClusterSteps key a b → ClusterStep key b c → ClusterSteps key a c

  -- Replicas under their own ids, for one key and with a positive lease.
  pub record IsCluster (key : Bytes) (c : Cluster) : Type 0 where
    pub own_id : (id : Bytes) → (c.replica id).instance_id ≡ id
    pub one_key : (id : Bytes) → (c.replica id).key ≡ key
    pub lease : (id : Bytes) → 0 < (c.replica id).ttl

  record IsSingle (key : Bytes) (c : Cluster) : Type 0 where
    shape : IsCluster key c
    holder :
        (id : Bytes)
        → c.leaving id ≡ false
        → (c.replica id).is_leader ≡ true
        → R.get c.store key ≡ some id

  put-IsCluster :
      (key : Bytes) (c : Cluster) (id : Bytes) (l : Leader) (s : R.Store)
      → (l.instance_id ≡ (c.replica id).instance_id)
        × (l.key ≡ (c.replica id).key)
        × (l.ttl ≡ (c.replica id).ttl)
      → IsCluster key c
      → IsCluster key (put c id (l, s))
  put-IsCluster key c id l s h v = record {
    own_id = λ j. ground (arith, h, v.own_id id, v.own_id j, str_eq_iff id j);
    one_key = λ j. ground (arith, h, v.one_key id, v.one_key j);
    lease = λ j. ground (arith, h, v.lease id, v.lease j);
  }

  release_flag_fields :
      (l : Leader)
      → ((release_flag l).instance_id ≡ l.instance_id)
        × ((release_flag l).key ≡ l.key)
        × ((release_flag l).ttl ≡ l.ttl)
        × ((release_flag l).is_leader ≡ false)
  unfolding release_flag
  release_flag_fields l = ground arith

  -- A release leaves a key that another replica holds as it is.
  release_keeps :
      (l : Leader) (s : R.Store) (v : Bytes)
      → v ≢ l.instance_id
      → R.get s l.key ≡ some v
      → R.get (release_lease R l s) l.key ≡ some v
  unfolding release_lease release_script
  release_keeps l s v h e = ground (arith, str_eq_iff v l.instance_id)

  preserved-IsSingle :
      (key : Bytes) (a b : Cluster) → ClusterStep key a b → IsSingle key a → IsSingle key b
  preserved-IsSingle key a b (steps _ id at_work) v =
      let l = a.replica id in
      let (l', s') = step R l a.store in
      record {
        shape = put-IsCluster key a id l' s' (step_fields l a.store) v.shape;
        holder = λ j k h. ground (
          arith,
          k,
          str_eq_iff id j,
          v.shape.one_key id,
          v.shape.own_id id,
          v.shape.lease id,
          v.holder j,
          step_holder l a.store,
          step_keeps l a.store j,
        );
      }
  preserved-IsSingle key a b (release_begins _ id at_work) v =
      let l = a.replica id in
      record {
        shape = record {
          own_id = v.shape.own_id;
          one_key = v.shape.one_key;
          lease = v.shape.lease;
        };
        holder = λ j k h. ground (
          arith,
          k,
          str_eq_iff id j,
          v.shape.one_key id,
          v.shape.own_id id,
          v.holder j,
          release_keeps l a.store j,
        );
      }
  preserved-IsSingle key a b (release_ends _ id leaves) v =
      let l = a.replica id in
      let (own, one, ttl, off) = release_flag_fields l in
      record {
        shape = put-IsCluster key a id (release_flag l) a.store (own, one, ttl) v.shape;
        holder = λ j k h. ground (arith, k, off, str_eq_iff id j, v.holder j);
      }
  preserved-IsSingle key a b (elsewhere _ s e) v = record {
    shape = record { own_id = v.shape.own_id; one_key = v.shape.one_key; lease = v.shape.lease };
    holder = λ id k h. e ∙ v.holder id k h;
  }

  all_preserved-IsSingle :
      (key : Bytes) (a b : Cluster) → ClusterSteps key a b → IsSingle key a → IsSingle key b
  all_preserved-IsSingle key a _ start v = v
  all_preserved-IsSingle key a _ (snoc b c ss s) v =
      preserved-IsSingle key b c s (all_preserved-IsSingle key a b ss v)

  -- While no lease ends, and from replicas with their own ids, one key and positive leases of which
  -- none leads: while one replica that has not begun its release believes that it leads, no other
  -- such replica does, through any steps, releases and failures of Redis in any order, commands whose
  -- reply is lost included. (A replica within its release may believe it, too.)
  pub at_most_one_leader :
      (key : Bytes) (a b : Cluster) (i j : Bytes)
      → IsCluster key a
      → ((id : Bytes) → (a.replica id).is_leader ≡ false)
      → ClusterSteps key a b
      → b.leaving i ≡ false
      → (b.replica i).is_leader ≡ true
      → j ≢ i
      → b.leaving j ≡ false
      → (b.replica j).is_leader ≡ false
  at_most_one_leader key a b i j shape none_leads ss at_work leads apart at_work' =
      let v =
        all_preserved-IsSingle key a b ss
          (record { shape = shape; holder = λ id k h. ground (arith, none_leads id, h) }) in
      elim (Bool-cases (b.replica j).is_leader) [
        | inr e ↦ e
        | inl e ↦
            let same : some j ≡ some i = sym (v.holder j at_work' e) ∙ v.holder i at_work leads in
            ground (arith, same)
      ]

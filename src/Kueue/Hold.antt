-- ===== src/Kueue/Hold.antt =====
-- When the cluster queue of kueue-nats/docker/controller.py is on hold.
use interlink_condorce_plugi.Prelude.{
  ℕ, ◌≡◌, ◌∙◌, refl, codes, List, [], ◌∷◌, map, true, false, not, all, keep, length, nat_beq, ok,
  if◌then◌else◌, arith, list_beq,
}
use interlink_condorce_plugi.Kueue.{resources_keys}
use interlink_condorce_plugi.Kueue.Queues.{
  Flavor, local, nats, fake, MasterQueue, KueueFlavor, ClusterQueue, is_fake, all_flavors,
  own_flavors, fake_flavor, fail_over_flavor_name, get_flavors, get_cluster_queue_body,
}

module _ {A : Type 0} (quantity : A → ℕ) (none_at_all : A) where
  -- the queue without a pool: the flavor that does not exist, with nothing of each resource
  abbrev pub held : ClusterQueue A
  held = record {
    flavors =
        record {
          name = fail_over_flavor_name;
          resources = map (λ k. (k, none_at_all)) resources_keys;
        }
        ∷ [];
    hold = true;
  }

  fake_quotas :
      all_flavors quantity none_at_all (fake_flavor quantity none_at_all ∷ []) ≡ ok held.flavors
  unfolding all_flavors fake_flavor list_beq codes
  fake_quotas = refl

  -- flavors that have a pool among them are not all fake
  own_flavors_open :
      (fs : List (Flavor A)) (k : KueueFlavor A) (ks : List (KueueFlavor A))
      → all_flavors quantity none_at_all (keep (λ f. not (is_fake f)) fs) ≡ ok (k ∷ ks)
      → all is_fake (keep (λ f. not (is_fake f)) fs) ≡ false
  unfolding all_flavors keep is_fake all
  own_flavors_open [] k ks h = cc
  own_flavors_open (local f ∷ fs) k ks h = refl
  own_flavors_open (nats f ∷ fs) k ks h = refl
  own_flavors_open (fake f ∷ fs) k ks h = own_flavors_open fs k ks h

  get_cluster_queue_body_empty :
      (q : MasterQueue A)
      → all_flavors quantity none_at_all (own_flavors quantity none_at_all q) ≡ ok []
      → get_cluster_queue_body quantity none_at_all q ≡ ok held
  unfolding get_cluster_queue_body get_flavors is_fake all fake_flavor
  get_cluster_queue_body_empty q h = rw (h, fake_quotas)

  nonempty : {B : Type 0} (k : B) (ks : List B) → nat_beq (length (k ∷ ks)) 0 ≡ false
  nonempty k ks = ground arith

  get_flavors_open :
      (q : MasterQueue A) (k : KueueFlavor A) (ks : List (KueueFlavor A))
      → all_flavors quantity none_at_all (own_flavors quantity none_at_all q) ≡ ok (k ∷ ks)
      → get_flavors quantity none_at_all q ≡ ok (own_flavors quantity none_at_all q)
  unfolding get_flavors
  get_flavors_open q k ks h = rw (h, nonempty k ks)

  get_cluster_queue_body_open :
      (q : MasterQueue A) (k : KueueFlavor A) (ks : List (KueueFlavor A))
      → all_flavors quantity none_at_all (own_flavors quantity none_at_all q) ≡ ok (k ∷ ks)
      → get_cluster_queue_body quantity none_at_all q
        ≡ ok (record { flavors = k ∷ ks; hold = false })
  unfolding get_cluster_queue_body
  get_cluster_queue_body_open q k ks h =
      rw (get_flavors_open q k ks h, h, own_flavors_open q.flavors k ks h)

  -- If the flavors of a queue other than the fake one can be listed, the cluster queue lists them and
  -- is open, unless there is none: then it is on hold, with the flavor that does not exist and none
  -- of any resource.
  pub get_cluster_queue_body_hold :
      (q : MasterQueue A) (l : List (KueueFlavor A))
      → all_flavors quantity none_at_all (own_flavors quantity none_at_all q) ≡ ok l
      → get_cluster_queue_body quantity none_at_all q
        ≡ ok (if nat_beq (length l) 0 then held else record { flavors = l; hold = false })
  get_cluster_queue_body_hold q [] h = get_cluster_queue_body_empty q h
  get_cluster_queue_body_hold q (k ∷ ks) h =
      get_cluster_queue_body_open q k ks h ∙ rw (nonempty k ks)

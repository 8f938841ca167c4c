-- ===== src/Cvsp/Tests.antt =====
-- A trunk of nine slots: made, allocated from, and freed.
use leitner.Common.{◌≤◌}
use leitner.Cvsp.Pool.{cvsp_alloc}
use leitner.Cvsp.Free.{get_bnode_mem_len}
use leitner.Common.{false, true}
use leitner.Cvsp.Alloc.{CvspPool, need_slots_of}
use leitner.Common.{
  ℕ, ◌≡◌, refl, ap, arith, List, [], ◌∷◌, some, none, Option, length, length-append, get_or,
  get_elem?,
}
use leitner.Cvsp.Nodes.{
  Mem, ◌>>=◌, set_fnode_len, next_fnode, idx, set_idx, set_pad, pad, next_off, get_fnode_len,
  set_bnode_len, prev_fnode, prev_off, set_next, set_prev, get_bnode_len,
}
use leitner.Cvsp.Trunk.{
  CvspoolTrunk, cvsp_init_trunk, init_mem, blocks_loop, close_ring, link_fields,
}
use leitner.Cvsp.Alloc.{
  trunk_alloc, search, fnode_taken, take_fnode, split_fnode, copy_fnode0, shift_links, unlink,
}
use leitner.Cvsp.Free.{
  trunk_free, merged, prev_free, merge_next, merge_prev, merge_both, add_last, lead_to,
}
use leitner.Cvsp.Tiles.{Node, free_node, busy_node}
use leitner.Cvsp.Give.{ValidTrunk, Gives}
use leitner.Cvsp.Clean.{trunk_free_stops}
use leitner.Cvsp.Fresh.{cvsp_init_trunk-Valid}
use leitner.Cvsp.Allocation.{trunk_alloc-Gives}
use leitner.Cvsp.Serving.{Serves, cvsp_alloc-Serves}
use leitner.Cvsp.Iterate.{cvsp_for_each_bnode}
use leitner.Cvsp.Visits.{repeated, cvsp_for_each_bnode-visited}
use leitner.Cvsp.Init.{slots_num_adjust, trunks_of, slots_in_last_trunk, adjusted_last, cvsp_init}
use leitner.Cvsp.Opened.{Opened, cvsp_init-Opened}
use leitner.Cvsp.Sizes.{get_bnode_mem_len-trunk_alloc}
use leitner.Cvsp.Again.{Restored, trunk_free-trunk_alloc}
use leitner.Cvsp.Release.{Released, trunk_free-Released}

abbrev blank : Mem
blank = λ a. 0

cvsp_init_trunk-Valid_example :
    (t : CvspoolTrunk) × (cvsp_init_trunk 5 9 blank ≡ some t)
    × ValidTrunk t (free_node 9 ∷ []) (3 ∷ [])
    × (t.t_total ≡ 9)
cvsp_init_trunk-Valid_example = cvsp_init_trunk-Valid blank 9 (omega arith) (omega arith) 5

abbrev fresh : Option CvspoolTrunk
fresh = cvsp_init_trunk 5 9 blank

-- The slots that three requests give, one after the other.
abbrev slot_of : Option (Option (CvspoolTrunk × ℕ)) → Option ℕ
slot_of (some (some (t, slot))) = some slot
slot_of _ = none

abbrev trunk_after : Option (Option (CvspoolTrunk × ℕ)) → Option CvspoolTrunk
trunk_after (some (some (t, slot))) = some t
trunk_after _ = none

abbrev asked : Option CvspoolTrunk → ℕ → Option (Option (CvspoolTrunk × ℕ))
asked t need = t >>= λ t. trunk_alloc t need

abbrev freed : Option CvspoolTrunk → ℕ → Option CvspoolTrunk
freed t slot = t >>= λ t. trunk_free t slot

first_slot : slot_of (asked fresh 3) ≡ some 4
unfolding cvsp_init_trunk trunk_alloc trunk_free init_mem set_fnode_len blocks_loop search
    next_fnode idx close_ring set_idx set_pad pad next_off get_fnode_len fnode_taken take_fnode
    split_fnode copy_fnode0 set_bnode_len shift_links unlink prev_fnode prev_off set_next set_prev
    link_fields merged prev_free merge_next merge_prev merge_both add_last lead_to get_bnode_len
first_slot = refl

second_slot : slot_of (asked (trunk_after (asked fresh 3)) 3) ≡ some 7
unfolding cvsp_init_trunk trunk_alloc trunk_free init_mem set_fnode_len blocks_loop search
    next_fnode idx close_ring set_idx set_pad pad next_off get_fnode_len fnode_taken take_fnode
    split_fnode copy_fnode0 set_bnode_len shift_links unlink prev_fnode prev_off set_next set_prev
    link_fields merged prev_free merge_next merge_prev merge_both add_last lead_to get_bnode_len
second_slot = refl

-- The trunk has no node of ten slots.
too_large : asked fresh 10 ≡ some none
unfolding cvsp_init_trunk trunk_alloc trunk_free init_mem set_fnode_len blocks_loop search
    next_fnode idx close_ring set_idx set_pad pad next_off get_fnode_len fnode_taken take_fnode
    split_fnode copy_fnode0 set_bnode_len shift_links unlink prev_fnode prev_off set_next set_prev
    link_fields merged prev_free merge_next merge_prev merge_both add_last lead_to get_bnode_len
too_large = refl

-- A node whose client wrote nothing, taken again in its whole length: the next one is not freed.
again_unwritten :
    freed
      (trunk_after (
        asked
          (freed (trunk_after (asked (trunk_after (asked (trunk_after (asked fresh 3)) 3)) 3)) 4)
          3))
      7
    ≡ none
unfolding cvsp_init_trunk trunk_alloc trunk_free init_mem set_fnode_len blocks_loop search
    next_fnode idx close_ring set_idx set_pad pad next_off get_fnode_len fnode_taken take_fnode
    split_fnode copy_fnode0 set_bnode_len shift_links unlink prev_fnode prev_off set_next set_prev
    link_fields merged prev_free merge_next merge_prev merge_both add_last lead_to get_bnode_len
again_unwritten = refl

-- The halfwords of a trunk with a node in use before a free one.
abbrev cells : List ℕ → Mem
cells xs a = get_or (get_elem? xs a) 0

abbrev lent : CvspoolTrunk
lent = record {
  id = 5;
  t_total = 9;
  t_used = 3;
  t_total_mem = 48;
  mem = cells (
      245
      ∷ (2
          ∷ (6
              ∷ (6
                  ∷ (2
                      ∷ (65527
                          ∷ (65528
                              ∷ (2
                                  ∷ (0
                                      ∷ (0
                                          ∷ (0
                                              ∷ (0
                                                  ∷ (245
                                                      ∷ (5
                                                          ∷ (0
                                                            ∷ (0
                                                            ∷ (0
                                                            ∷ (0
                                                            ∷ (0
                                                            ∷ (0
                                                            ∷ (0
                                                            ∷ (0
                                                            ∷ (5
                                                            ∷ (65527 ∷ []))))))))))))))))))))))));
}

abbrev or_lent : Option CvspoolTrunk → CvspoolTrunk
or_lent none = lent
or_lent (some t) = t

abbrev lent_nodes : List Node
lent_nodes = busy_node 3 ∷ (free_node 6 ∷ [])

lent-ValidTrunk : ValidTrunk lent lent_nodes (6 ∷ [])
unfolding pad idx next_fnode prev_fnode next_off prev_off
lent-ValidTrunk = record {
  valid = record {
    head = (omega arith, refl, refl, refl, refl);
    tiled = ((omega arith, refl, refl), ((omega arith, refl, refl, refl, refl), refl));
    ring = ((refl, refl), (refl, refl));
    same = λ z. refl;
    long = refl;
    small = omega arith;
  };
  used = refl;
}

trunk_alloc-Gives_example : Gives lent lent_nodes 3 (trunk_alloc lent 3)
trunk_alloc-Gives_example =
    trunk_alloc-Gives lent lent_nodes (6 ∷ []) 3 lent-ValidTrunk (omega arith)

trunk_free-Released_example : Released lent [] 3 (free_node 6 ∷ []) (trunk_free lent 4)
trunk_free-Released_example =
    trunk_free-Released lent [] 3 (free_node 6 ∷ []) (6 ∷ []) lent-ValidTrunk
      (λ xs l e. absurd (omega (arith, ap length e, length-append xs (busy_node l ∷ []))))
      (λ e. absurd (omega (arith, ap length e)))

-- Two nodes in use; the first still ends as a free node.
abbrev stale : CvspoolTrunk
stale = record {
  id = 5;
  t_total = 9;
  t_used = 6;
  t_total_mem = 48;
  mem = cells (
      245
      ∷ (2
          ∷ (9
              ∷ (9
                  ∷ (2
                      ∷ (65527
                          ∷ (65528
                              ∷ (2
                                  ∷ (0
                                      ∷ (0
                                          ∷ (2
                                              ∷ (65527
                                                  ∷ (65528
                                                      ∷ (2
                                                          ∷ (0
                                                            ∷ (0
                                                            ∷ (0
                                                            ∷ (0
                                                            ∷ (245
                                                            ∷ (2
                                                            ∷ (0
                                                            ∷ (0
                                                            ∷ (2
                                                            ∷ (65527 ∷ []))))))))))))))))))))))));
}

stale-ValidTrunk : ValidTrunk stale (busy_node 3 ∷ (busy_node 3 ∷ (free_node 3 ∷ []))) (9 ∷ [])
unfolding pad idx next_fnode prev_fnode next_off prev_off
stale-ValidTrunk = record {
  valid = record {
    head = (omega arith, refl, refl, refl, refl);
    tiled = (
      (omega arith, refl, refl),
      ((omega arith, refl, refl), ((omega arith, refl, refl, refl, refl), refl)),
    );
    ring = ((refl, refl), (refl, refl));
    same = λ z. refl;
    long = refl;
    small = omega arith;
  };
  used = refl;
}

trunk_free_stops_example : trunk_free stale 7 ≡ none
trunk_free_stops_example =
    trunk_free_stops stale [] 3 3 (free_node 3 ∷ []) (9 ∷ []) stale-ValidTrunk refl refl

abbrev lent_pool : CvspPool
lent_pool = record {
  total = 9;
  used = 3;
  total_mem = 96;
  autoex = false;
  trunk_cnt = 1;
  trunk_list = lent ∷ [];
}

cvsp_alloc-Serves_example :
    Serves lent_pool (lent_nodes ∷ []) (need_slots_of 8) (cvsp_alloc [] lent_pool 8)
unfolding need_slots_of
cvsp_alloc-Serves_example =
    cvsp_alloc-Serves [] lent_pool (lent_nodes ∷ []) 8 (((6 ∷ []), lent-ValidTrunk), tt) refl
      (omega arith)

-- The same pool, when it may grow.
abbrev growing : CvspPool
growing = record lent_pool { autoex = true }

abbrev lent_twice : CvspoolTrunk
lent_twice = or_lent (trunk_after (trunk_alloc lent 3))

get_bnode_mem_len-trunk_alloc_example :
    (bytes : ℕ) × (get_bnode_mem_len lent_twice.mem 7 ≡ some bytes) × 8 ≤ bytes
unfolding trunk_alloc search next_fnode idx next_off get_fnode_len need_slots_of set_fnode_len
    set_idx set_pad pad fnode_taken take_fnode split_fnode copy_fnode0 set_bnode_len shift_links
    unlink prev_fnode prev_off set_next set_prev
get_bnode_mem_len-trunk_alloc_example =
    get_bnode_mem_len-trunk_alloc lent lent_twice lent_nodes (6 ∷ []) 8 7 lent-ValidTrunk
      (omega arith) refl

trunk_free-trunk_alloc_example : Restored lent lent_nodes (trunk_free lent_twice 7)
unfolding trunk_alloc search next_fnode idx next_off get_fnode_len need_slots_of set_fnode_len
    set_idx set_pad pad fnode_taken take_fnode split_fnode copy_fnode0 set_bnode_len shift_links
    unlink prev_fnode prev_off set_next set_prev
trunk_free-trunk_alloc_example =
    trunk_free-trunk_alloc lent lent_twice lent_nodes (6 ∷ []) 3 7 lent-ValidTrunk tt
      ((λ e. absurd (omega (arith, e))), tt) (omega arith) refl (λ e. absurd (omega (arith, e)))

cvsp_for_each_bnode-visited_example :
    cvsp_for_each_bnode lent_pool none ≡ some (none, repeated 1 (4 ∷ []))
cvsp_for_each_bnode-visited_example =
    cvsp_for_each_bnode-visited lent_pool lent [] lent_nodes (6 ∷ []) refl lent-ValidTrunk

two_trunks : slots_num_adjust 2 1048575 ≡ some 1048576
unfolding slots_num_adjust trunks_of slots_in_last_trunk adjusted_last
two_trunks = refl

cvsp_init-Opened_example : Opened 2 false (cvsp_init (some blank ∷ []) 2 false)
cvsp_init-Opened_example = cvsp_init-Opened [] blank false 2 (omega arith) (omega arith)

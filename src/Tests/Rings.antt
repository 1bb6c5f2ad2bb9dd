-- ===== src/Tests/Rings.antt =====
-- A bucket with three nodes at the addresses 10, 20 and 30 behind the head at address 1.
use freepacket.Base.{ℕ, ◌≡◌, [], ◌∷◌, some, map, arith, if◌then◌else◌, ◌==◌}
use freepacket.ListHead.{
  Links, init_list_head, list_add, list_add_tail, list_del, list_move_tail, delete_where,
}
use freepacket.ListHead.Chain.{IsRing}
use freepacket.ListHead.Insert.{init_list_head-IsRing, list_add_tail-IsRing}
use freepacket.ListHead.Walk.{IsRingOf, list_ops-refine, selected}
use freepacket.Session.{Blist, SessionItem, null_blist}
use freepacket.Session.Young.{young}
use freepacket.Session.Links.{node_at, expired, delete_links-refines}
use freepacket.Tests.Sessions.{talk}

abbrev nowhere : Links
nowhere = record { next = λ _. 0; prev = λ _. 0 }

abbrev ring : Links
ring = list_add_tail 30 1 (list_add_tail 20 1 (list_add_tail 10 1 (init_list_head 1 nowhere)))

ring-IsRing : IsRing ring 1 (10 ∷ 20 ∷ 30 ∷ [])
ring-IsRing =
    list_add_tail-IsRing _ 30 1 (10 ∷ 20 ∷ [])
      (list_add_tail-IsRing _ 20 1 (10 ∷ [])
        (list_add_tail-IsRing _ 10 1 [] (init_list_head-IsRing 1 nowhere) (omega arith) tt)
        (omega arith) (omega arith, tt))
      (omega arith) (omega arith, (omega arith, tt))

list_ops-refine_example :
    IsRingOf (list_add 40 1 (init_list_head 1 nowhere)) 1 (40 ∷ []) 7
    × IsRingOf (list_add_tail 40 1 (init_list_head 1 nowhere)) 1 (40 ∷ []) 7
    × IsRingOf (list_del 20 ring) 1 (10 ∷ 30 ∷ []) 7
    × IsRingOf (list_move_tail 20 1 ring) 1 (10 ∷ 30 ∷ 20 ∷ []) 7
list_ops-refine_example =
    list_ops-refine (init_list_head 1 nowhere) ring 1 40 [] (10 ∷ []) 20 (30 ∷ []) 7
      (init_list_head-IsRing 1 nowhere) ring-IsRing (omega arith) tt (omega arith) (omega arith)

-- The node at address 20 has the session of `talk`, last used at time 5.
abbrev sessions : ℕ → SessionItem
sessions p =
    if p == 20
    then record (null_blist.item) {
      upper_ip = talk.upper_ip;
      lower_ip = talk.lower_ip;
      upper_port = talk.upper_port;
      lower_port = talk.lower_port;
      protocol = talk.protocol;
      last_time = 5;
    }
    else record (null_blist.item) { last_time = 90 }

delete_links-refines_example :
    (t : Links) × (delete_where (expired sessions 50 100) 4 1 ring
      ≡ some (selected (expired sessions 50 100) (10 ∷ 20 ∷ 30 ∷ []), t))
    × IsRing t 1 (
        map
          (λ (node : Blist). node.address)
          (young 50 100 (map (node_at sessions) (10 ∷ 20 ∷ 30 ∷ []))))
delete_links-refines_example =
    delete_links-refines sessions 50 100 ring 1 (10 ∷ 20 ∷ 30 ∷ []) 4 ring-IsRing (omega arith)

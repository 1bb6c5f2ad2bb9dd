-- ===== src/Pipeline/Deep.antt =====
-- All threads that `main` of simulation.c starts, at a pipeline depth of 5 or more.
use freepacket.Base.{List, map}
use freepacket.Queue.{Queue}
use freepacket.Parser.{FlowItem}
use freepacket.Session.{HashTable}
use freepacket.Pipeline.Trio.{Trio}

abbrev tables_in : List (Queue FlowItem × HashTable) → List HashTable
tables_in ms = map (λ (m : Queue FlowItem × HashTable). m.1) ms

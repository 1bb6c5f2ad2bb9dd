-- ===== src/Tests/Fulls.antt =====
-- One packet, one flow item, and one manager with a table of one session.
use freepacket.Base.{returns, ◌+◌, ◌≡◌, refl, ap, List, [], ◌∷◌, arith, replicate, length}
use freepacket.Queue.{slot}
use freepacket.Parser.Loop.{null_packet, null_flow}
use freepacket.Session.Sweep.{held}
use freepacket.Pipeline.Circle.{tag}
use freepacket.Pipeline.Flows.{in_queues}
use freepacket.Pipeline.Fits.{IsPlain}
use freepacket.Pipeline.Trio.{Trio, sends, parses, manages, manager_queues}
use freepacket.Pipeline.Whole.{IsWhole, IsSame}
use freepacket.Pipeline.Full.{IsFull, Round, of_thread, cleans, rounds}
use freepacket.Pipeline.Rounds.{rounds-IsFull}
use freepacket.Tests.Packets.{config}
use freepacket.Tests.Rounds.{sent, generator, parser}
use freepacket.Tests.Sessions.{small_config, table, table-TableOk, two, two-IsValid}

abbrev full : Trio
full = record {
  pair = record {
    generator = record generator { config = record config { generator_nums = 1; parser_nums = 1 } };
    parser = record parser {
      pool = two null_flow null_flow 1;
      managers = record {
        numbers = 1;
        queues = two null_flow null_flow 0 ∷ [];
        ghash_view = replicate 36 0;
      };
    };
  };
  tables = table ∷ [];
  alives = 0 ∷ [];
}

sent-IsPlain : IsPlain 8 (tag sent)
sent-IsPlain = record {
  ihl = refl;
  doff = refl;
  least = omega arith;
  most = omega arith;
  room = omega arith;
  fits = omega arith;
}

none_queued : in_queues (manager_queues full) ≡ []
unfolding in_queues slot
none_queued = refl

full-IsWhole : IsWhole 4 1 1 full
full-IsWhole = record {
  outside = 1;
  pair = record {
    pool = record {
      valid = two-IsValid sent null_packet 1 (omega arith);
      roomy = omega arith;
      counter = omega arith;
    };
    queue = record {
      valid = two-IsValid null_packet null_packet 0 (omega arith);
      roomy = omega arith;
      counter = omega arith;
    };
    total = refl;
    within = omega arith;
    one_parser = refl;
    same_index = refl;
    same_turn = refl;
    nums = (refl, refl);
  };
  flow_pool = record {
    valid = two-IsValid null_flow null_flow 1 (omega arith);
    roomy = omega arith;
    counter = omega arith;
  };
  managers = record {
    some_managers = omega arith;
    counted = omega arith;
    cells = refl;
    stores = (
      record {
        valid = two-IsValid null_flow null_flow 0 (omega arith);
        roomy = omega arith;
        counter = omega arith;
      },
      tt,
    );
    fits = omega (arith, ap length none_queued);
  };
  all_packets = omega (arith, ap length none_queued);
  all_flows = omega (arith, ap length none_queued);
}

full-IsFull : IsFull 4 1 1 8 2 full
unfolding in_queues slot held
full-IsFull = record {
  whole = full-IsWhole;
  plain = (sent-IsPlain, tt);
  fitting = tt;
  counted = refl;
  tables = (
    record {
      table_ok = table-TableOk;
      nodes = refl;
      room = omega arith;
      few = omega arith;
      counter = omega arith;
    },
    tt,
  );
}

abbrev four_rounds : List Round
four_rounds =
    of_thread sends ∷ of_thread parses ∷ of_thread (manages 0 50) ∷ cleans (λ i k. 60 + k) ∷ []

rounds-IsFull_example :
    (s' : Trio) × (rounds (small_config 5) four_rounds full ≡ returns s')
    × IsFull 0 1 1 8 2 s'
    × IsSame full s'
rounds-IsFull_example =
    rounds-IsFull 0 1 1 8 2 (small_config 5) four_rounds full (omega arith) refl (omega arith)
      (omega arith) full-IsFull

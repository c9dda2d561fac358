-- ===== src/ShardKv/Clerk/Tests.antt =====
-- Runs of the clerk, src/shardkv/client.go, on small inputs.
use sharded_kv.Prelude.{true, false, List, [], ◌∷◌, replicate, set, nat_eq}
use sharded_kv.ShardCtrler.Common.{n_shards, Config}
use sharded_kv.ShardCtrler.Server.{CommandReply}
use sharded_kv.ShardCtrler.Clerk.{Turn, query}
use sharded_kv.ShardKv.Common.{append, Err, err_wrong_group, err_wrong_leader, ok}
use sharded_kv.ShardKv.Clerk.{Clerk, GetReply, PutAppendArgs, Round, put_append_args}

-- The key "a" is in shard 7, which the clerk thinks to be with group 2. That group says it is
-- wrong; the controller's answer is that group 1 has all shards, of which server "b" leads.
abbrev old_config : Config
old_config = record {
  num = 2;
  shards = set (replicate n_shards 1) 7 2;
  groups = (1, "a" ∷ "b" ∷ []) ∷ (2, "c" ∷ []) ∷ [];
}

abbrev new_config : Config
new_config = record old_config { num = 3; shards = replicate n_shards 1 }

abbrev clerk : Clerk
clerk = record {
  sm = sharded_kv.ShardCtrler.Clerk.make_clerk 1 8;
  config = old_config;
  client_id = 7;
  seq_num = 1;
}

abbrev told : List (Turn CommandReply)
told =
    record {
      through = true;
      reply = record {
        wrong_leader = false;
        err = sharded_kv.ShardCtrler.Server.ok;
        config = new_config;
      };
    }
    ∷ []

abbrev rounds : List (Round Err)
rounds =
    record { turns = record { through = true; reply = err_wrong_group } ∷ []; ctrl_turns = told }
    ∷ record {
      turns =
          record { through = true; reply = err_wrong_leader }
          ∷ record { through = true; reply = ok }
          ∷ [];
      ctrl_turns = [];
    }
    ∷ []

abbrev args : PutAppendArgs
args = put_append_args (97 ∷ []) (120 ∷ []) append clerk

abbrev appended : Clerk
appended = record clerk { sm = record clerk.sm { seq_num = 2 }; config = new_config; seq_num = 2 }

-- Then it gets the value.
abbrev get_rounds : List (Round GetReply)
get_rounds =
    record {
      turns =
          record { through = false; reply = record { err = ok; value = [] } }
          ∷ record { through = true; reply = record { err = ok; value = 120 ∷ [] } }
          ∷ [];
      ctrl_turns = [];
    }
    ∷ []

abbrev got : Clerk
got = record appended { seq_num = 3 }

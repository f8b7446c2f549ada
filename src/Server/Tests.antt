-- ===== src/Server/Tests.antt =====
-- Runs of the server, and its theorems at concrete inputs.
use libappf.Base.{
  ℕ, some, ◌≡◌, List, Bool, false, none, suc, length, arith, refl, true, inl, ◌∷◌, [],
}
use libappf.Poll.{Op, registered}
use libappf.Poll.Registry.{IsRegistry, entry, Avoids}
use libappf.Server.{
  Cnx, Server, Accepting, add_connection, server_disconnect, server_stop, live,
  new_connection_event, cnx_event, SockOpts,
}
use libappf.Server.Start.{Servent, Starting, server_start, find_alias, is_prompt}
use libappf.Server.Events.{disconnect, Handlers, bytes, cnx_handle_event, find}
use libappf.Server.Account.{count, held, Distinct, IsServing}
use libappf.Server.Accept.{IsFresh, add_connection_leak, add_connection-IsServing}
use libappf.Server.Disconnect.{server_disconnect_lem, Listed}
use libappf.Server.Stop.{server_stop_lem}
use libappf.Server.Returns.{Orderly, cnx_handle_event-IsServing}
use libappf.Server.Open.{IsReady, Started, server_start-Started}
use libappf.Base.Int.{pos}

-- A server on descriptor 3 with one connection on 4 and 5.
abbrev first : Cnx
first = record { id = 70; fd = 4; dup = 5 }

abbrev server : Server
server = record {
  service = none;
  prompt = some (b'>' ∷ []);
  port = pos 23;
  max_cnx = pos 2;
  fd = some 3;
  num_cnx = pos 1;
  cnx = first ∷ [];
  polls =
      record { fd = 4; events = 1; revents = 0; context = 70; callback = cnx_event }
      ∷ record { fd = 3; events = 3; revents = 0; context = 0; callback = new_connection_event }
      ∷ [];
  descriptors = 5 ∷ 4 ∷ 3 ∷ 0 ∷ [];
  services = [];
  sent = [];
}

server-IsServing : IsServing (3 ∷ 0 ∷ []) server
unfolding count held Distinct live
server-IsServing = record {
  accounted = λ f. omega arith;
  counted = refl;
  limited = omega arith;
  distinct = (refl, tt);
}

server-IsRegistry : IsRegistry server.polls
unfolding registered
server-IsRegistry = record { distinct = (refl, (refl, tt)); bounded = omega arith }

-- The system's answers to a second connection, on 6 and 7.
abbrev set_all : SockOpts
set_all = record { nodelay = true; reuse = true; linger = true }

abbrev accepting : (linger : Bool) → Accepting
accepting linger = record {
  accepted = some 6;
  peer = true;
  allocated = some 71;
  options = set_all;
  duplicated = some 7;
  dup_options = record { nodelay = true; reuse = true; linger = linger };
  stream = true;
}

-- The user's code: a command ends its connection, and the others do nothing.
abbrev goodbye : Cnx → List Op
goodbye c = []

abbrev handlers : Handlers
handlers = record { goodbye = goodbye; greet = λ id. []; command = λ line id. disconnect id ∷ [] }

accepting-IsFresh : IsFresh (accepting true) server
unfolding live count
accepting-IsFresh = record {
  structure = λ id e. ground (arith, e);
  descriptor = λ fd e. ground (arith, e);
}

add_connection-IsServing_example : IsServing (3 ∷ 0 ∷ []) (add_connection (accepting true) server).1
add_connection-IsServing_example =
    add_connection-IsServing (accepting true) refl accepting-IsFresh server-IsServing

add_connection_leak_example :
    ((add_connection (accepting false) server).0 ≡ none)
    × IsServing (7 ∷ 3 ∷ 0 ∷ []) (add_connection (accepting false) server).1
add_connection_leak_example =
    add_connection_leak (accepting false) 71 6 7 refl refl refl refl refl refl refl refl refl
      server-IsServing

first-Listed : Listed first server.cnx
unfolding Listed
first-Listed = inl refl

first-Avoids : Avoids first.fd (goodbye first)
unfolding Avoids
first-Avoids = tt

server_disconnect_lem_example :
    IsServing (3 ∷ 0 ∷ []) (server_disconnect goodbye (some first) server)
    × IsRegistry (server_disconnect goodbye (some first) server).polls
    × (live first.id (server_disconnect goodbye (some first) server).cnx ≡ false)
    × (suc (length (server_disconnect goodbye (some first) server).cnx) ≡ 1)
    × (entry first.fd (server_disconnect goodbye (some first) server).polls ≡ none)
server_disconnect_lem_example =
    server_disconnect_lem goodbye first first-Listed server-IsServing server-IsRegistry first-Avoids

server_stop_lem_example :
    ((f : ℕ) → count f (server_stop goodbye server).descriptors ≡ count f (0 ∷ []))
    × ((server_stop goodbye server).cnx ≡ [])
    × ((server_stop goodbye server).num_cnx ≡ pos 0)
    × ((server_stop goodbye server).fd ≡ none)
    × (entry 3 (server_stop goodbye server).polls ≡ none)
server_stop_lem_example = server_stop_lem goodbye 3 refl server-IsServing server-IsRegistry

first-find : find 70 server.cnx ≡ some first
unfolding find
first-find = refl

command-Orderly : (bs : List ℕ) → Orderly 70 (handlers.command bs 70)
unfolding Orderly
command-Orderly bs = (refl, refl)

cnx_handle_event-IsServing_example :
    (s' : Server) × (cnx_handle_event handlers 1 (bytes b'q' []) 70 server ≡ some s')
    × IsServing (3 ∷ 0 ∷ []) s'
cnx_handle_event-IsServing_example =
    cnx_handle_event-IsServing handlers 1 (bytes b'q' []) 70 first command-Orderly first-find
      server-IsServing

-- A server that is not open yet.
abbrev closed : Server
closed = record server { fd = none; num_cnx = pos 0; cnx = []; polls = []; descriptors = 0 ∷ [] }

closed-IsReady : IsReady (0 ∷ []) closed
unfolding count held Distinct
closed-IsReady = record {
  serving = record {
    accounted = λ f. omega arith;
    counted = refl;
    limited = omega arith;
    distinct = tt;
  };
  no_cnx = refl;
}

abbrev starting : Starting
starting = record { servent = none; socket = some 3; options = set_all; bind = true; listen = true }

server_start-Started_example : Started starting (0 ∷ []) (server_start starting [] closed).0
server_start-Started_example = server_start-Started starting [] (0 ∷ []) closed closed-IsReady

abbrev with_alias : Servent
with_alias = record { name = b'a' ∷ []; port = 1; aliases = (b'x' ∷ b'>' ∷ []) ∷ [] }

abbrev without_alias : Servent
without_alias = record { name = b'b' ∷ []; port = 2; aliases = [] }

with_alias-find : find_alias with_alias.aliases ≡ some (b'x' ∷ b'>' ∷ [])
unfolding find_alias is_prompt
with_alias-find = refl

without_alias-find : find_alias without_alias.aliases ≡ none
unfolding find_alias
without_alias-find = refl

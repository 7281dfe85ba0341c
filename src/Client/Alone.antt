-- ===== src/Client/Alone.antt =====
-- What the client with the cache and the client without it answer, and a server of their own.
use cnpg_plugin_pgbackrest.Base.{◌≡◌, false, List, [], ◌∷◌, Result, ok}
use cnpg_plugin_pgbackrest.Client.{Key, Object, Write, Server, ClientState, key_eq, get, write}

-- A call of the client: a read, or a write of an object.
pub data Operation : Type 0 where
  read : Key → Operation
  written : Write → Object → Operation

pub data Answer : Type 0 where
  object : Result Object → Answer
  done : Result (Unit {0}) → Answer

module _ (server : Server) where
  -- The server gives the same answers to all reads.
  abbrev pub Same : server.State → server.State → Type 0
  Same s t = (key : Key) → (server.get key s).0 ≡ (server.get key t).0

  -- The operations on the server itself, and through the cache.
  unfoldable pub direct_step : Operation → server.State → Answer × server.State
  direct_step (read key) t = let (r, t') = server.get key t in (object r, t')
  direct_step (written w o) t = let (r, t') = server.write w o t in (done r, t')

  unfoldable pub cached_step :
      Operation → ClientState server.State → Answer × ClientState server.State
  unfolding get write
  cached_step (read key) c = let (r, c') = get server key c in (object r, c')
  cached_step (written w o) c = let (r, c') = write server w o c in (done r, c')

  unfoldable pub direct_answers : List Operation → server.State → List Answer
  unfolding direct_step
  direct_answers [] t = []
  direct_answers (op ∷ ops) t = let (a, t') = direct_step op t in a ∷ direct_answers ops t'

  unfoldable pub cached_answers : List Operation → ClientState server.State → List Answer
  unfolding cached_step
  cached_answers [] c = []
  cached_answers (op ∷ ops) c = let (a, c') = cached_step op c in a ∷ cached_answers ops c'

-- A server that only this client writes to: an object that it gives has the key that was asked for;
-- a read changes no answer; the outcome of a write, and the answers after it, depend only on the
-- answers before it; and a write changes the answer for no other key.
pub record IsAlone (server : Server) : Type 0 where
  pub get-key :
      (key : Key) (o : Object) (s : server.State) → (server.get key s).0 ≡ ok o → o.key ≡ key
  pub get-same : (key : Key) (s : server.State) → Same server (server.get key s).1 s
  pub write-outcome :
      (w : Write) (o : Object) (s t : server.State)
      → Same server s t
      → (server.write w o s).0 ≡ (server.write w o t).0
  pub write-same :
      (w : Write) (o : Object) (s t : server.State)
      → Same server s t
      → Same server (server.write w o s).1 (server.write w o t).1
  pub write-other :
      (w : Write) (o : Object) (key : Key) (s : server.State)
      → key_eq key o.key ≡ false
      → (server.get key (server.write w o s).1).0 ≡ (server.get key s).0

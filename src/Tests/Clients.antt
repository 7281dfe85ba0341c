-- ===== src/Tests/Clients.antt =====
-- A server that keeps its objects as a function, whose clock moves a second with each read.
use cnpg_plugin_pgbackrest.Base.{
  ℕ, ◌+◌, ◌≡◌, ap, refl, true, false, Bool, List, [], ◌∷◌, Option, none, some, Text, codes,
  if◌then◌else◌, Result, ok, err, api_not_found, api_forbidden, All, ◌⊎◌, ◌/◌,
}
use cnpg_plugin_pgbackrest.Client.{
  Key, Object, Write, update, delete, patch, Server, secret_kind, key_eq, second, ClientState,
  new_entry,
}
use cnpg_plugin_pgbackrest.Client.Fresh.{Known, IsRecent, get-IsRecent}
use cnpg_plugin_pgbackrest.Client.Alone.{
  Operation, read, written, IsAlone, cached_answers, direct_answers,
}
use cnpg_plugin_pgbackrest.Client.Refines.{cached_answers_refine}

object_of : Key → Option Text → Result Object
object_of key none = err api_not_found
object_of key (some content) = ok (record { key = key; content = content })

content_after : Write → Object → Option Text
content_after update o = some o.content
content_after delete o = none
content_after (patch p) o = some p

abbrev small_server : Server
unfolding object_of content_after key_eq
small_server = record {
  State = (Key → Option Text) × ℕ;
  now = λ s. s.1;
  get = λ key s. (object_of key (s.0 key), (s.0, s.1 + second));
  write = λ w o s. (ok tt, ((λ key. if key_eq key o.key then content_after w o else s.0 key), s.1));
}

key-object_of : (key : Key) (c : Option Text) (o : Object) → object_of key c ≡ ok o → o.key ≡ key
unfolding object_of
key-object_of key none o h = cc
key-object_of key (some c) o h = cc

object_of-if :
    (b : Bool) (key : Key) (c x y : Option Text)
    → object_of key x ≡ object_of key y
    → object_of key (if b then c else x) ≡ object_of key (if b then c else y)
object_of-if true key c x y h = refl
object_of-if false key c x y h = h

small_server_alone : IsAlone small_server
unfolding small_server
small_server_alone = record {
  get-key = λ key o s h. key-object_of key (s.0 key) o h;
  get-same = λ key s k. refl;
  write-outcome = λ w o s t same. refl;
  write-same = λ w o s t same key.
      object_of-if (key_eq key o.key) key (content_after w o) (s.0 key) (t.0 key) (same key);
  write-other = λ w o key s h. rw h;
}

abbrev small_key : Key
small_key = record { namespace = codes "default"; name = codes "cipher"; kind = secret_kind }

abbrev small_run : List Operation
small_run =
    read small_key
    ∷ read small_key
    ∷ written (patch (codes "new")) (record { key = small_key; content = codes "old" })
    ∷ read small_key
    ∷ []

abbrev server_before : small_server.State
unfolding small_server
server_before = ((λ key. some (codes "old")), 0)

cached_answers_refine_example :
    cached_answers small_server small_run (record { cached_objects = []; base = server_before })
    ≡ direct_answers small_server small_run server_before
cached_answers_refine_example =
    cached_answers_refine small_server small_server_alone small_run server_before

content_of :
    {o : Object} {key : Key}
    → ok (record { key = key; content = codes "old" }) ≡ ok o
    → o.content ≡ codes "old"
content_of h = cc

-- A server that gives the same content for every key.
abbrev constant_server : Server
constant_server = record {
  State = ℕ;
  now = λ t. t;
  get = λ key t. (ok (record { key = key; content = codes "old" }), t + second);
  write = λ w o t. (err api_forbidden, t);
}

-- The client two seconds after it has read the key.
abbrev cached_client : ClientState ℕ
unfolding new_entry
cached_client = record {
  cached_objects = new_entry (record { key = small_key; content = codes "old" }) 5000000000 ∷ [];
  base = 7000000000;
}

abbrev HasContent : Object → ℕ → Type 0
HasContent o t = o.content ≡ codes "old"

gives_content :
    (key : Key) (o : Object) (s s' : ℕ)
    → constant_server.get key s ≡ (ok o, s')
    → HasContent o (s' / second)
gives_content key o s s' h = content_of (ap (λ p. p.0) h)

get-IsRecent_example :
    All (Known constant_server HasContent gives_content) cached_client.cached_objects
    × (IsRecent constant_server HasContent gives_content
          (record { key = small_key; content = codes "old" })
          7000000000
        ⊎ (constant_server.get small_key 7000000000
            ≡ (ok (record { key = small_key; content = codes "old" }), 7000000000)))
unfolding cached_client cnpg_plugin_pgbackrest.Client.get cnpg_plugin_pgbackrest.Base.str_eq codes
get-IsRecent_example =
    get-IsRecent constant_server HasContent gives_content small_key cached_client cached_client
      (record { key = small_key; content = codes "old" }) ((refl, refl), tt) refl

-- ===== src/Ws/Connect/Memory.antt =====
-- A hub beside Redis in memory: a value of the interface of Connect, which shows that its laws can be
-- met.
use notifyx.Prelude.{refl}
use notifyx.Redis.Strings.{RedisStrings}
use notifyx.Redis.Lists.{RedisLists}
use notifyx.Redis.MemoryStrings.{MemoryStrings, memory_strings}
use notifyx.Redis.MemoryLists.{MemoryLists, memory_lists}
use notifyx.Ws.{Hub}
use notifyx.Ws.Connect.{Server}

pub record MemoryServer : Type 0 where
  pub hub : Hub
  pub texts : MemoryStrings
  pub queues : MemoryLists

abbrev on_texts : (MemoryStrings → MemoryStrings) → MemoryServer → MemoryServer
on_texts f s = record s { texts = f s.texts }

abbrev on_queues : (MemoryLists → MemoryLists) → MemoryServer → MemoryServer
on_queues f s = record s { queues = f s.queues }

abbrev pub server_strings : RedisStrings MemoryServer
server_strings = record {
  get = λ s k. memory_strings.get s.texts k;
  ttl = λ s k. memory_strings.ttl s.texts k;
  setnx = λ k v. on_texts (memory_strings.setnx k v);
  expire = λ k n. on_texts (memory_strings.expire k n);
  setex = λ k v n. on_texts (memory_strings.setex k v n);
  del = λ k. on_texts (memory_strings.del k);
  pass = λ d. on_texts (memory_strings.pass d);
  get-setnx = λ s k v j. refl;
  get-expire = λ s k n j h. refl;
  get-del = λ s k j. refl;
  get-pass = λ s d j. refl;
  ttl-expire = λ s k n j h p. memory_strings.ttl-expire s.texts k n j h p;
  ttl-pass = λ s d j. refl;
  ttl-setnx = λ s k v j. refl;
  ttl-del = λ s k j h. memory_strings.ttl-del s.texts k j h;
  get-setex = λ s k v n j h. refl;
  ttl-setex = λ s k v n j h. refl;
}

abbrev pub server_lists : RedisLists MemoryServer
server_lists = record {
  lrange = λ s k. memory_lists.lrange s.queues k;
  ttl = λ s k. memory_lists.ttl s.queues k;
  rpush = λ k v. on_queues (memory_lists.rpush k v);
  expire = λ k n. on_queues (memory_lists.expire k n);
  del = λ k. on_queues (memory_lists.del k);
  pass = λ d. on_queues (memory_lists.pass d);
  lrange-rpush = λ s k v j. refl;
  lrange-expire = λ s k n j h. refl;
  lrange-del = λ s k j. refl;
  lrange-pass = λ s d j. refl;
  ttl-expire = λ s k n j h p. memory_lists.ttl-expire s.queues k n j h p;
  ttl-pass = λ s d j. refl;
}

abbrev pub memory_server : Server MemoryServer
memory_server = record {
  hub = λ s. s.hub;
  put_hub = λ h s. record s { hub = h };
  strings = server_strings;
  lists = server_lists;
  hub-put_hub = λ h s. refl;
  hub-setex = λ k v n s. refl;
  hub-del = λ k s. refl;
  hub-del_list = λ k s. refl;
  get-put_hub = λ h s k. refl;
  get-del_list = λ k s j h. refl;
  lrange-put_hub = λ h s k. refl;
  lrange-setex = λ k v n s j h. refl;
}

-- ===== src/Dns/Cache/Concrete.antt =====
-- dns_server/cache.py: a Redis that a test can compute with.
use scamlens.Base.{Text}
use scamlens.Dns.Cache.{Redis, Payload, CacheState}
use scamlens.Redis.Memory.{memory_keys, memory_queue, no_entries, no_items}

abbrev pub memory : Redis
memory = record { verdicts = memory_keys Payload; marks = memory_keys Text; queue = memory_queue }

abbrev pub fresh : CacheState memory
fresh = record { verdicts = no_entries Payload; limits = no_entries Text; queue = no_items }

-- ===== src/Sender/RpcClient/Connection.antt =====
-- sender/rpc_client.py: `first_connect` and `reconnect_callback`. Which calls of aio_pika return is a
-- parameter, and so is the name that the broker gives to the exclusive queue.
use aristote_dispatcher.Common.{
  ◌≡◌, refl, inl, inr, String, Bool, false, some, Bool-cases, if◌then◌else◌,
}
use aristote_dispatcher.Common.Exec.{Exec, ok, raised, modify, ◌>>◌}
use aristote_dispatcher.Consumer.Exceptions.{Exception, rejected}
use aristote_dispatcher.Sender.RpcClient.{RpcClient}

pub data Step : Type 0 where
  connect open_channel declare_queue consume : Step

abbrev await : (Step → Bool) → Step → Exec Exception RpcClient Unit
await returns step c = if returns step then (ok tt, c) else (raised rejected, c)

abbrev open_queue : (Step → Bool) → String → Exec Exception RpcClient Unit
open_queue returns queue = do
  await returns open_channel
  modify (λ c. record c { channel = some false })
  await returns declare_queue
  modify (λ c. record c { callback_queue = queue })
  await returns consume

unfoldable pub first_connect : (Step → Bool) → String → Exec Exception RpcClient Unit
first_connect returns queue = do
  await returns connect
  modify (λ c. record c { connection = some false })
  open_queue returns queue

unfoldable pub reconnect_callback : (Step → Bool) → String → Exec Exception RpcClient Unit
reconnect_callback returns queue = do
  modify (λ c. record c { connection = some false })
  open_queue returns queue

-- The calls under way keep their futures, however far a reconnection comes.
pub reconnect_callback_futures :
    (returns : Step → Bool) (queue : String) (c : RpcClient)
    → (reconnect_callback returns queue c).1.futures ≡ c.futures
unfolding reconnect_callback
reconnect_callback_futures returns queue c = elim (Bool-cases (returns open_channel)) [
  | inr refused ↦ rw refused refl
  | inl opened ↦ elim (Bool-cases (returns declare_queue)) [
    | inr refused ↦ rw (opened, refused) refl
    | inl declared ↦ elim (Bool-cases (returns consume)) [
      | inr refused ↦ rw (opened, declared, refused) refl
      | inl consumed ↦ rw (opened, declared, consumed) refl
    ]
  ]
]

-- ===== src/Resp/Handlers/Sets.antt =====
-- internal/server/resp/handlers_set.go
use cache_pot.Prelude.{drop}
use cache_pot.Memstore.Sets.{sadd, srem, smembers, sis_member, scard}
use cache_pot.Memstore.Keyspace.{sinter, sunion, sdiff}
use cache_pot.Resp.Handlers.{Handling, arg, call, reply_to, int_of, one_or_zero, array_of}

-- handleSAdd
unfoldable pub handle_sadd : Handling
handle_sadd env workspace args s =
    let (r, t) =
      call env 0 workspace (arg args 1) (λ ck now. sadd env.cfg ck now (drop 2 args)) s in
    (reply_to r int_of, t)

-- handleSRem
unfoldable pub handle_srem : Handling
handle_srem env workspace args s =
    let (r, t) = call env 0 workspace (arg args 1) (λ ck now. srem ck now (drop 2 args)) s in
    (reply_to r int_of, t)

-- handleSMembers
unfoldable pub handle_smembers : Handling
handle_smembers env workspace args s =
    let (r, t) = call env 0 workspace (arg args 1) (λ ck now. smembers ck now) s in
    (reply_to r array_of, t)

-- handleSIsMember
unfoldable pub handle_sis_member : Handling
handle_sis_member env workspace args s =
    let (r, t) = call env 0 workspace (arg args 1) (λ ck now. sis_member ck now (arg args 2)) s in
    (reply_to r one_or_zero, t)

-- handleSCard
unfoldable pub handle_scard : Handling
handle_scard env workspace args s =
    let (r, t) = call env 0 workspace (arg args 1) (λ ck now. scard ck now) s in
    (reply_to r int_of, t)

-- handleSInter
unfoldable pub handle_sinter : Handling
handle_sinter env workspace args s =
    let (r, t) = sinter workspace env.clock (drop 1 args) (env.others 0 s) in
    (reply_to r array_of, t)

-- handleSUnion
unfoldable pub handle_sunion : Handling
handle_sunion env workspace args s =
    let (r, t) = sunion workspace env.clock (drop 1 args) (env.others 0 s) in
    (reply_to r array_of, t)

-- handleSDiff
unfoldable pub handle_sdiff : Handling
handle_sdiff env workspace args s =
    let (r, t) = sdiff workspace env.clock (drop 1 args) (env.others 0 s) in
    (reply_to r array_of, t)

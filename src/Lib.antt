-- ===== src/Lib.antt =====
-- NovaVei: the state that decides which upstream a request of a language-model client goes to, and
-- what is masked on the way.
--
-- A request names a group. The relay (internal/relay) picks a member of the group, limits the use of
-- the caller's key, sends the request with its sensitive texts replaced by placeholders, reports the
-- round's success or failure to the group's route, and tries again until it has an answer, which is
-- restored while it is streamed back. What each round did is kept for the panel.
--
-- * Rate (internal/keylimit/keylimit.go): `admit` is the sliding window of AcquireRPMPermit, `trim`
--   its loop. Times are nanoseconds.
-- * Keylimit (internal/keylimit/keylimit.go): the two tables, the state objects and the closures
--   that AcquireConcurrency hands out. A closure is its number in `slots`, an object its number in
--   `objects`, so that a table entry that is removed and made again is another object.
-- * Group and Channel (internal/model/group.go, internal/model/channel.go, internal/relay/channel.go):
--   the data, defaults and normalisation. A Go int that may be negative is a ℤ, the float64
--   multiplier an exact fraction, a database key a ℕ with 0 for none.
--   Group.Members and Group.References (internal/op/group.go) are the checks of a group's members
--   before they are stored; their walk through the references has the depth limit and one as fuel.
-- * Route (internal/relay/route.go, internal/relay/prober.go): RouteState and every function that
--   changes it. A function that holds routeMu throughout is one function of the state; pickGroupItem
--   and recoverExpiredItems give the lock up, and what happens meanwhile (the others' accesses, the
--   probe that wins, the clock, the channels) is the record `Awaited`. Times are milliseconds.
--   Route.Sticky (internal/relay/sticky.go) is the table of the members that sessions stay with, and
--   Route.Hops the selection within each group of a reference chain and what a chain gives back.
-- * Keys (internal/relay/keyselect.go): the cursors and cooldowns of a channel's keys. Times are
--   nanoseconds; the resolution of a proxy template is a parameter.
-- * ChannelLimit (internal/relay/channellimit.go): the places and windows of a channel. The passes
--   of a waiting loop are a list: each entry says what ended the select, and what others did before.
-- * Relay (internal/relay/handler.go): the loop of ForwardHandler. Life holds the variables of the
--   loop, the request and the tables, and what a pass is given from outside; Loop is the head of a
--   pass and the choice of a member, Select the channel and its key, Attempt the upstream call with
--   what follows its error (Failing) and its answer (Delivery), Forward the copying of a stream, and
--   Settings the budgets. What the clock, the configuration, the upstream and the others do in a
--   pass, before it and during its waits, its call and its delivery, is its record `Passing`; `pass`
--   continues, returns with a reply, or panics as the code outside did.
-- * Mask (internal/relay/mask): placeholders and PlaceholderRe on lists of bytes, the restoration of
--   a text and of a stream, the table of a session and the store of the sessions, and the checks of
--   card and identity numbers, with the calendar as a parameter. Random bytes are
--   read from a list, and `none` is that it does not suffice; strings.ToUpper is a parameter.
-- * Requests (internal/relay/state.go): one request's rounds and end, the ring of the last failures,
--   and the registry of all requests. The calls of cancel functions and the closing of the stop
--   channel are recorded in the state. The test for a whole rune at the end of a text is a parameter.
-- * Base holds the tests, lists, integers and maps that all parts share, and Examples the concrete
--   inputs on which the theorems are applied.
--
-- Maps are association lists; the order of the entries stands for the order in which a range over
-- the map meets them. The fuel of a reference chain is the depth limit and one more. Channel lookups,
-- group lookups and the probes themselves are parameters. The expiry of a sticky session and the
-- cooldown of a member are exact, without the overflow of an int64 and the rounding of a float64, which
-- only far larger configurations reach; the cooldown of a key wraps as in the source.
--
-- Not modelled: the HTTP handlers, what happens to a client's request before the loop, the sending
-- of a request and the decoding of what comes back, headers and log entries, the streams of snapshots
-- to the panel, the rules of the masking but the two checksums and its engine, token usage, and
-- everything that stores in the database.
pub mod Base
pub mod Rate
pub mod Keylimit
pub mod Group
pub mod Channel
pub mod Keys
pub mod Route
pub mod Mask
pub mod Requests
pub mod Examples
pub mod ChannelLimit
pub mod Relay

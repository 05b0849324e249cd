-- ===== src/MarketData/Realtime.antt =====
-- packages/research-signals/src/realtime/binance-spot-ws.ts: the class `BinanceSpotRealtimeClient` as
-- a state with one function for each thing that happens to it. What a message parses to is part of
-- the event; the parsers of the messages are not here.
pub mod Stopped
pub mod Bounded
use Prim.Native.String
use event_probability_termin.Base.{
  ℕ, suc, ◌+◌, ◌*◌, ◌/◌, max, Option, none, some, Bool, true, false, not, ◌&&◌, List, [], ◌∷◌, ◌++◌,
  map, String, ltb, leb, ◌==◌, if◌then◌else◌, filter, any,
}
use event_probability_termin.Market.{SignalSymbol, RealtimePriceSymbol, RealTimePriceTick}

pub data StreamType : Type 0 where
  trade agg_trade book_ticker kline_1m kline_5m : StreamType

abbrev stream_text : StreamType → String
stream_text StreamType.trade = "trade"
stream_text StreamType.agg_trade = "aggTrade"
stream_text StreamType.book_ticker = "bookTicker"
stream_text StreamType.kline_1m = "kline_1m"
stream_text StreamType.kline_5m = "kline_5m"

infixl 60 ◌<>◌
abbrev ◌<>◌ : String → String → String
s <> t = String.◌++◌ s t

unfoldable pub to_binance_realtime_symbol : SignalSymbol → RealtimePriceSymbol
to_binance_realtime_symbol SignalSymbol.btc = RealtimePriceSymbol.btcusdt
to_binance_realtime_symbol SignalSymbol.eth = RealtimePriceSymbol.ethusdt

-- The symbol's text in lower case.
abbrev lower_case : RealtimePriceSymbol → String
lower_case RealtimePriceSymbol.btcusdt = "btcusdt"
lower_case RealtimePriceSymbol.ethusdt = "ethusdt"

-- `names.join("/")`
abbrev join_names : List String → String
join_names [] = ""
join_names (name ∷ []) = name
join_names (name ∷ next ∷ names) = name <> "/" <> join_names (next ∷ names)

unfoldable pub build_binance_spot_realtime_stream_url : SignalSymbol → List StreamType → String
unfolding to_binance_realtime_symbol
build_binance_spot_realtime_stream_url symbol streams =
    let name = lower_case (to_binance_realtime_symbol symbol) in
    "wss://data-stream.binance.vision/stream?streams="
    <> join_names (map (λ stream. name <> "@" <> stream_text stream) streams)

-- `decimal` prints a whole number.
pub record ClientOptions : Type 0 where
  pub symbol : SignalSymbol
  pub streams : List StreamType
  pub stale_after_ms : ℕ
  pub max_reconnects : ℕ
  pub reconnect_base_delay_ms : ℕ
  pub decimal : ℕ → String

-- The defaults of the constructor.
abbrev pub default_options : SignalSymbol → (ℕ → String) → ClientOptions
default_options symbol decimal = record {
  symbol = symbol;
  streams = StreamType.trade ∷ StreamType.book_ticker ∷ StreamType.kline_1m ∷ [];
  stale_after_ms = 15_000;
  max_reconnects = 3;
  reconnect_base_delay_ms = 1_000;
  decimal = decimal;
}

pub data Status : Type 0 where
  connecting opened stale reconnecting closed failed : Status

-- The fields of the client, with what the runtime keeps for it: how many sockets it has opened, which
-- are numbered from 0 on, and its timers that run, numbered in the order in which they were set.
pub record Client : Type 0 where
  pub socket : Option ℕ
  pub reconnect_count : ℕ
  pub closed_by_user : Bool
  pub stale_timer : Option ℕ
  pub reconnect_timer : Option ℕ
  pub last_tick_at_ms : ℕ
  pub sockets : ℕ
  pub timers : ℕ
  pub running_stale : List ℕ
  pub running_reconnect : List ℕ

abbrev pub new_client : Client
new_client = record {
  socket = none;
  reconnect_count = 0;
  closed_by_user = false;
  stale_timer = none;
  reconnect_timer = none;
  last_tick_at_ms = 0;
  sockets = 0;
  timers = 0;
  running_stale = [];
  running_reconnect = [];
}

-- What the client does to the outside.
pub data Action (F : Type 0) : Type 0 where
  open_socket : (socket : ℕ) (url : String) → Action F
  close_socket : ℕ → Action F
  set_interval : (timer period_ms : ℕ) → Action F
  set_timeout : (timer delay_ms : ℕ) → Action F
  on_status : Status → (reason : String) → Action F
  on_tick : RealTimePriceTick F → Action F

-- What can happen: the two calls, a timer that runs out, and what a socket reports.
pub data Event (F : Type 0) : Type 0 where
  start_call : Event F
  stop_call : Event F
  stale_timeout : (timer now : ℕ) → Event F
  reconnect_timeout : (timer : ℕ) → Event F
  socket_open : (socket : ℕ) → Event F
  tick_message : (socket now : ℕ) → RealTimePriceTick F → Event F
  bad_message : (socket : ℕ) (reason : String) → Event F
  socket_error : (socket : ℕ) → Event F
  socket_close : (socket : ℕ) → Event F

-- `clearInterval` and `clearTimeout`
abbrev pub clear : Option ℕ → List ℕ → List ℕ
clear none running = running
clear (some timer) running = filter (λ t. not (t == timer)) running

abbrev pub is_running : ℕ → List ℕ → Bool
is_running timer running = any (λ t. t == timer) running

abbrev ms_text : ClientOptions → ℕ → String
ms_text options n = options.decimal n <> "ms."

module _ {F : Type 0} (options : ClientOptions) where
  -- The private method `open`.
  unfoldable pub open_client : Client → Client × List (Action F)
  open_client c =
      let status = if c.reconnect_count == 0 then Status.connecting else Status.reconnecting in
      let url = build_binance_spot_realtime_stream_url options.symbol options.streams in
      let after : Client = record c { socket = some c.sockets; sockets = suc c.sockets } in
      if c.closed_by_user
      then (c, [])
      else (after, Action.on_status status "" ∷ Action.open_socket c.sockets url ∷ [])

  unfoldable pub start : Client → Client × List (Action F)
  unfolding open_client
  start c =
      let (opened_client, actions) = open_client (record c { closed_by_user = false }) in
      let timer = opened_client.timers in
      (
        record opened_client {
          stale_timer = some timer;
          timers = suc timer;
          running_stale = timer ∷ opened_client.running_stale;
        },
        actions ++ (Action.set_interval timer (max 1_000 (options.stale_after_ms / 2)) ∷ []),
      )

  unfoldable pub stop : Client → Client × List (Action F)
  stop c =
      let closing : List (Action F) = elim c.socket [
        | none ↦ []
        | some socket ↦ Action.close_socket socket ∷ []
      ] in
      (
        record c {
          closed_by_user = true;
          stale_timer = none;
          reconnect_timer = none;
          running_stale = clear c.stale_timer c.running_stale;
          running_reconnect = clear c.reconnect_timer c.running_reconnect;
        },
        closing ++ (Action.on_status Status.closed "" ∷ []),
      )

  -- The callback of `setInterval`.
  unfoldable pub on_stale_timeout : (timer now : ℕ) → Client → Client × List (Action F)
  on_stale_timeout timer now c =
      let reason =
        "No Binance Spot public realtime tick for " <> ms_text options options.stale_after_ms in
      let is_stale =
        ltb 0 c.last_tick_at_ms && ltb (c.last_tick_at_ms + options.stale_after_ms) now in
      if is_running timer c.running_stale && is_stale
      then (c, Action.on_status Status.stale reason ∷ [])
      else (c, [])

  -- The callback of `setTimeout`: the timer has run out.
  unfoldable pub on_reconnect_timeout : (timer : ℕ) → Client → Client × List (Action F)
  unfolding open_client
  on_reconnect_timeout timer c =
      if is_running timer c.running_reconnect
      then open_client (record c { running_reconnect = clear (some timer) c.running_reconnect })
      else (c, [])

  unfoldable pub on_tick_message :
      (now : ℕ) → RealTimePriceTick F → Client → Client × List (Action F)
  on_tick_message now tick c =
      (record c { last_tick_at_ms = now; reconnect_count = 0 }, Action.on_tick tick ∷ [])

  unfoldable pub on_close : Client → Client × List (Action F)
  on_close c =
      let count = suc c.reconnect_count in
      let delay = options.reconnect_base_delay_ms * count in
      let after : Client = record c {
        reconnect_count = count;
        reconnect_timer = some c.timers;
        timers = suc c.timers;
        running_reconnect = c.timers ∷ c.running_reconnect;
      } in
      if c.closed_by_user
      then (c, [])
      else if leb options.max_reconnects c.reconnect_count
      then (
        c,
        Action.on_status Status.failed "Binance Spot public WebSocket reconnect limit reached."
            ∷ [],
      )
      else (
        after,
        Action.on_status Status.reconnecting
              ("Reconnecting Binance Spot public WebSocket in " <> ms_text options delay)
            ∷ Action.set_timeout c.timers delay
            ∷ [],
      )

  unfoldable pub handle : Event F → Client → Client × List (Action F)
  unfolding start stop on_stale_timeout on_reconnect_timeout on_tick_message on_close
  handle Event.start_call c = start c
  handle Event.stop_call c = stop c
  handle (Event.stale_timeout timer now) c = on_stale_timeout timer now c
  handle (Event.reconnect_timeout timer) c = on_reconnect_timeout timer c
  handle (Event.socket_open socket) c = (c, Action.on_status Status.opened "" ∷ [])
  handle (Event.tick_message socket now tick) c = on_tick_message now tick c
  handle (Event.bad_message socket reason) c = (c, Action.on_status Status.stale reason ∷ [])
  handle (Event.socket_error socket) c =
      (c, Action.on_status Status.reconnecting "Binance Spot public WebSocket error." ∷ [])
  handle (Event.socket_close socket) c = on_close c

  -- The client after these events, and all that it has done.
  unfoldable pub run_events : List (Event F) → Client → Client × List (Action F)
  unfolding handle
  run_events [] c = (c, [])
  run_events (e ∷ es) c =
      let (next, actions) = handle e c in
      let (final, more) = run_events es next in (final, actions ++ more)

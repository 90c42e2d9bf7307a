-- ===== src/Logger.antt =====
-- include/ieee1905_1/logger.h and src/logger.cpp: the global logger, made when it is first used.
pub mod Lines
use ieee.Prelude.{String, true, if◌then◌else◌, not, List}
use ieee.World.{
  M, pure, emit, ◌>>◌, trace, debug, info, warn, error, critical, Argument, stdout_color_mt,
  set_level, flush_on, log,
}

-- `g_logger = spdlog::stdout_color_mt("ieee1905_1")`.
abbrev create : M (Unit {0})
create w = emit (stdout_color_mt "ieee1905_1") (record w { has_logger = true })

unfoldable pub init : M (Unit {0})
init w =
    if not w.has_logger
    then (create >> (emit (set_level debug) >> emit (flush_on error))) w
    else pure tt w

unfoldable pub get : M (Unit {0})
unfolding init
get w = if not w.has_logger then init w else pure tt w

-- The macros EM_TRACE to EM_CRITICAL: `Logger::get()->debug(...)`.
unfoldable pub em_trace : String → List Argument → M (Unit {0})
unfolding get
em_trace format arguments = do get; emit (log trace format arguments)

unfoldable pub em_debug : String → List Argument → M (Unit {0})
unfolding get
em_debug format arguments = do get; emit (log debug format arguments)

unfoldable pub em_info : String → List Argument → M (Unit {0})
unfolding get
em_info format arguments = do get; emit (log info format arguments)

unfoldable pub em_warn : String → List Argument → M (Unit {0})
unfolding get
em_warn format arguments = do get; emit (log warn format arguments)

unfoldable pub em_error : String → List Argument → M (Unit {0})
unfolding get
em_error format arguments = do get; emit (log error format arguments)

unfoldable pub em_critical : String → List Argument → M (Unit {0})
unfolding get
em_critical format arguments = do get; emit (log critical format arguments)

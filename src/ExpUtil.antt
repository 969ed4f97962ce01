-- ===== src/ExpUtil.antt =====
-- simulator/contrib/basic-sim/model/core/exp-util.cc: the parsing of configuration values. A
-- std::string is the list of its bytes. Files are read elsewhere; what a function needs of one is
-- its lines. The conversions of doubles are an interface (`Numbers`).
pub mod Text
pub mod Numbers
pub mod Collections
pub mod Config

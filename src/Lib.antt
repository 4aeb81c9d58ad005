-- ===== src/Lib.antt =====
-- The headers control module of nginx: directives that set, add, append, rewrite, clear and pass
-- request and response headers, with conditions, wildcards and a chain that stops at the first
-- rule for a name.
--
-- Parts of the program and files of this library:
--   * Ngx: what nginx gives the module, as a record of parameters with named laws (`HasWordLength`,
--     `FoldsCase`, `Lowers`), `ngx_isspace` (src/ngx_http_headers_control_module.h), `hash_str`
--     (src/ngx_http_headers_control_util.h) and the comparison of names that the code writes out.
--   * Bitmap: `bitmap_init`, `bitmap_set`, `bitmap_isset` (src/ngx_http_headers_control_util.c).
--   * Rule: the structures of src/ngx_http_headers_control_module.h.
--   * Directive: `parse_directive` and `parse_header` (src/ngx_http_headers_control_util.c).
--   * Merge: `merge_one_array`, `merge_loc_conf` (src/ngx_http_headers_control_module.c).
--   * Chain: the rule loop of `filter` and `handler`, with the lock bitmap (the same file).
--   * Phase: `filter`, `handler`, `post_config` and the other callbacks (the same file).
--   * Request: header lists in a store of parts and elements, and the fields the handlers write;
--     Request.Whole states what `ngx_list_push` promises.
--   * Condition: the condition and the value of a rule, shared by `exec_output_header` and
--     `exec_input_header`.
--   * Output, with Setters, ContentType and Exec: src/ngx_http_headers_control_headers_out.c.
--   * Input, with Setters, Agent and Exec: src/ngx_http_headers_control_headers_in.c.
--   * Host: `validate_host` of the same file, and the grammar that it accepts.
--   * Remove: `rm_header_helper` (src/ngx_http_headers_control_util.c).
--   * Tests: inputs on which the functions run, and on which the hypotheses of the theorems hold.
--
-- A configuration is read by Directive level by level and folded by Merge. At run time Phase hands
-- the rules of a level to Chain, which calls `exec_output_header` or `exec_input_header` on each
-- and records in a bitmap which rules have taken their name.
--
-- One build is modelled: nginx 1.23.0 or later, without ngx_expr_module, with the header slots of
-- NGX_HTTP_GZIP, NGX_HTTP_X_FORWARDED_FOR, NGX_HTTP_REALIP and NGX_HTTP_DAV. An `ngx_uint_t` and a
-- `size_t` have 64 bits; NGX_INT_T_LEN is a parameter of at most 64. A pool is a list of answers,
-- or a flag for each request of memory, so a refusal is an input. `none` as a result stands for an
-- access that C leaves undefined, a failed assertion, or a loop that used up its fuel: walks over
-- header lists take fuel, as a list in memory could be cyclic: one unit for each element, and one
-- for the end. The retries of the request search take one for each element that is removed.
--
-- Not modelled: log and debug output, the command table and the module records, the member
-- `_rt_locked`, which is never read, and the branches for other builds.
pub mod Common
pub mod Bitmap
pub mod Ngx
pub mod Rule
pub mod Merge
pub mod Chain
pub mod Host
pub mod Directive
mod Tests
pub mod Request
pub mod Condition
pub mod Output
pub mod Remove
pub mod Input
pub mod Phase

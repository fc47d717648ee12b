-- ===== src/Lexer/Keywords/Second.antt =====
-- crates/cobol-lexer/src/token.rs: the second half of the arms of `from_keyword`.
use rust_cobol.Prelude.{List, [], ◌∷◌}
use rust_cobol.Prelude.Text.{Text, codes}
use rust_cobol.Lexer.Kinds.{TokenKind}

abbrev pub second_words : List (Text × TokenKind)
second_words =
    (codes "END-READ", TokenKind.end_read)
    ∷ (codes "END-WRITE", TokenKind.end_write)
    ∷ (codes "END-REWRITE", TokenKind.end_rewrite)
    ∷ (codes "END-DELETE", TokenKind.end_delete)
    ∷ (codes "END-START", TokenKind.end_start)
    ∷ (codes "END-RETURN", TokenKind.end_return)
    ∷ (codes "INPUT", TokenKind.input)
    ∷ (codes "OUTPUT", TokenKind.output)
    ∷ (codes "ENABLE", TokenKind.enable)
    ∷ (codes "DISABLE", TokenKind.disable)
    ∷ (codes "SEND", TokenKind.send)
    ∷ (codes "RECEIVE", TokenKind.receive)
    ∷ (codes "PURGE", TokenKind.purge)
    ∷ (codes "I-O", TokenKind.io_mode)
    ∷ (codes "EXTEND", TokenKind.extend)
    ∷ (codes "INTO", TokenKind.into)
    ∷ (codes "AT", TokenKind.at)
    ∷ (codes "END", TokenKind.end)
    ∷ (codes "INVALID", TokenKind.invalid_key)
    ∷ (codes "SIZE", TokenKind.size_kw)
    ∷ (codes "ERROR", TokenKind.error_kw)
    ∷ (codes "FOR", TokenKind.for_kw)
    ∷ (codes "FIRST", TokenKind.first_kw)
    ∷ (codes "EXCEPTION", TokenKind.exception_kw)
    ∷ (codes "DUPLICATES", TokenKind.duplicates)
    ∷ (codes "EOP", TokenKind.eop)
    ∷ (codes "END-OF-PAGE", TokenKind.eop)
    ∷ (codes "END-COMPUTE", TokenKind.end_compute)
    ∷ (codes "END-ADD", TokenKind.end_add)
    ∷ (codes "END-SUBTRACT", TokenKind.end_subtract)
    ∷ (codes "END-MULTIPLY", TokenKind.end_multiply)
    ∷ (codes "END-DIVIDE", TokenKind.end_divide)
    ∷ (codes "END-SEARCH", TokenKind.end_search)
    ∷ (codes "END-SORT", TokenKind.end_sort)
    ∷ (codes "END-MERGE", TokenKind.end_merge)
    ∷ (codes "WITH", TokenKind.with)
    ∷ (codes "LOCK", TokenKind.lock)
    ∷ (codes "STRING", TokenKind.string)
    ∷ (codes "UNSTRING", TokenKind.unstring)
    ∷ (codes "DELIMITED", TokenKind.delimited)
    ∷ (codes "DELIMITER", TokenKind.delimiter)
    ∷ (codes "COUNT", TokenKind.count)
    ∷ (codes "OVERFLOW", TokenKind.overflow)
    ∷ (codes "END-STRING", TokenKind.end_string)
    ∷ (codes "END-UNSTRING", TokenKind.end_unstring)
    ∷ (codes "INSPECT", TokenKind.inspect)
    ∷ (codes "TALLYING", TokenKind.tallying)
    ∷ (codes "REPLACING", TokenKind.replacing)
    ∷ (codes "CONVERTING", TokenKind.converting)
    ∷ (codes "BEFORE", TokenKind.before)
    ∷ (codes "INITIAL", TokenKind.initial)
    ∷ (codes "MERGE", TokenKind.merge)
    ∷ (codes "SEARCH", TokenKind.search)
    ∷ (codes "SORT", TokenKind.sort)
    ∷ (codes "ON", TokenKind.on_kw)
    ∷ (codes "RELEASE", TokenKind.release)
    ∷ (codes "SET", TokenKind.set)
    ∷ (codes "UP", TokenKind.up)
    ∷ (codes "DOWN", TokenKind.down)
    ∷ (codes "CONTINUE", TokenKind.continue)
    ∷ (codes "EXIT", TokenKind.exit)
    ∷ (codes "PROGRAM", TokenKind.program)
    ∷ (codes "METHOD", TokenKind.method)
    ∷ (codes "GOBACK", TokenKind.goback)
    ∷ (codes "INITIALIZE", TokenKind.initialize)
    ∷ (codes "INITIATE", TokenKind.initiate)
    ∷ (codes "TERMINATE", TokenKind.terminate)
    ∷ (codes "GENERATE", TokenKind.generate)
    ∷ (codes "RAISE", TokenKind.raise)
    ∷ (codes "RESUME", TokenKind.resume)
    ∷ (codes "ALLOCATE", TokenKind.allocate)
    ∷ (codes "FREE", TokenKind.free)
    ∷ (codes "VALIDATE", TokenKind.validate)
    ∷ (codes "INVOKE", TokenKind.invoke)
    ∷ (codes "NEW", TokenKind.new)
    ∷ (codes "SELF", TokenKind.self)
    ∷ (codes "SUPER", TokenKind.super)
    ∷ (codes "NULL", TokenKind.null)
    ∷ (codes "NULLS", TokenKind.null)
    ∷ (codes "FUNCTION", TokenKind.function)
    ∷ (codes "NOT", TokenKind.not)
    ∷ (codes "AND", TokenKind.and)
    ∷ (codes "OR", TokenKind.or)
    ∷ (codes "GREATER", TokenKind.greater)
    ∷ (codes "LESS", TokenKind.less)
    ∷ (codes "EQUAL", TokenKind.equal)
    ∷ (codes "THAN", TokenKind.than)
    ∷ (codes "NUMERIC", TokenKind.numeric)
    ∷ (codes "ALPHABETIC", TokenKind.alphabetic)
    ∷ (codes "ALPHABETIC-LOWER", TokenKind.alphabetic_lower)
    ∷ (codes "ALPHABETIC-UPPER", TokenKind.alphabetic_upper)
    ∷ (codes "POSITIVE", TokenKind.positive)
    ∷ (codes "NEGATIVE", TokenKind.negative)
    ∷ (codes "LINE", TokenKind.line)
    ∷ (codes "LINES", TokenKind.lines)
    ∷ (codes "PAGE", TokenKind.page)
    ∷ (codes "ADVANCING", TokenKind.advancing)
    ∷ (codes "RECORDING", TokenKind.recording)
    ∷ (codes "MODE", TokenKind.mode)
    ∷ (codes "BLOCK", TokenKind.block)
    ∷ (codes "CONTAINS", TokenKind.contains)
    ∷ (codes "RECORDS", TokenKind.records)
    ∷ (codes "RECORD", TokenKind.record_kw)
    ∷ (codes "CHARACTERS", TokenKind.characters)
    ∷ (codes "LABEL", TokenKind.label)
    ∷ (codes "OMITTED", TokenKind.omitted)
    ∷ (codes "LINAGE", TokenKind.linage)
    ∷ (codes "FOOTING", TokenKind.footing)
    ∷ (codes "TOP", TokenKind.top)
    ∷ (codes "BOTTOM", TokenKind.bottom)
    ∷ (codes "CODE-SET", TokenKind.code_set)
    ∷ (codes "COPY", TokenKind.copy)
    ∷ (codes "REPLACE", TokenKind.replace)
    ∷ (codes "OFF", TokenKind.off)
    ∷ (codes "IN", TokenKind.in_kw)
    ∷ (codes "OF", TokenKind.of)
    ∷ (codes "MESSAGE", TokenKind.message)
    ∷ (codes "TERMINAL", TokenKind.terminal)
    ∷ (codes "SYMBOLIC", TokenKind.symbolic)
    ∷ (codes "SUB-QUEUE-1", TokenKind.sub_queue_1)
    ∷ (codes "SUB-QUEUE-2", TokenKind.sub_queue_2)
    ∷ (codes "SUB-QUEUE-3", TokenKind.sub_queue_3)
    ∷ (codes "QUEUE", TokenKind.queue)
    ∷ (codes "DESTINATION", TokenKind.destination)
    ∷ (codes "TABLE", TokenKind.table)
    ∷ (codes "ERROR-KEY", TokenKind.error_key)
    ∷ (codes "STATUS-KEY", TokenKind.status_key)
    ∷ (codes "END-KEY", TokenKind.end_key)
    ∷ (codes "TEXT", TokenKind.text)
    ∷ (codes "LENGTH", TokenKind.length)
    ∷ (codes "DATE", TokenKind.date_kw)
    ∷ (codes "TIME", TokenKind.time_kw)
    ∷ (codes "EMI", TokenKind.emi)
    ∷ (codes "EGI", TokenKind.egi)
    ∷ (codes "ESI", TokenKind.esi)
    ∷ (codes "CLASS", TokenKind.class)
    ∷ (codes "INHERITS", TokenKind.inherits)
    ∷ (codes "PROPERTY", TokenKind.property)
    ∷ (codes "GET", TokenKind.get)
    ∷ (codes "COLUMN", TokenKind.column)
    ∷ (codes "COL", TokenKind.column)
    ∷ (codes "HIGHLIGHT", TokenKind.highlight)
    ∷ (codes "REVERSE-VIDEO", TokenKind.reverse_video)
    ∷ (codes "SOURCE", TokenKind.source_field)
    ∷ (codes "JSON", TokenKind.json)
    ∷ (codes "XML", TokenKind.xml)
    ∷ (codes "PARSE", TokenKind.parse)
    ∷ (codes "FLOAT-SHORT", TokenKind.float_short)
    ∷ (codes "FLOAT-LONG", TokenKind.float_long)
    ∷ (codes "FLOAT-EXTENDED", TokenKind.float_extended)
    ∷ []

-- ===== src/Lexer/Kinds.antt =====
-- crates/cobol-lexer/src/token.rs: the kinds of tokens. A kind whose name is reserved here ends in _kw.
pub data TokenKind : Type 0 where
  integer_literal decimal_literal string_literal hex_literal boolean_literal national_literal
        picture_string identifier identification environment data_kw procedure division section
        program_id class_id method_id interface_id function_id factory_kw object_kw configuration
        source_computer object_computer special_names repository input_output file_control
        io_control select assign organization sequential indexed relative access_mode dynamic random
        record_key alternate_record_key file_status file working_storage local_storage linkage
        communication report screen fd sd pic value values redefines renames occurs times depending
        ascending descending key usage display computational comp comp_1 comp_2 comp_3 comp_4 comp_5
        binary packed_decimal index pointer function_pointer sign_kw leading trailing separate
        justified blank when zero space high_value low_value quote all filler external global
        group_usage national typedef move to add subtract multiply divide compute giving remainder
        rounded on_size_error not_on_size_error end_compute end_add end_subtract end_multiply
        end_divide corresponding if_kw then_kw else_kw end_if evaluate also true_kw false_kw other
        end_evaluate perform thru varying until after end_perform go go_to call using by reference
        content returning end_call cancel alter stop run accept from end_accept end_display open_kw
        close read write rewrite delete start return end_read end_write end_rewrite end_delete
        end_start end_return input output enable disable send receive purge io_mode extend into at
        end not_at_end invalid_key not_invalid_key eop not_at_eop with lock no_lock string unstring
        delimited delimiter count overflow not_on_overflow on_exception not_on_exception end_string
        end_unstring inspect tallying replacing converting before initial merge search end_search
        sort end_sort end_merge on_kw size_kw error_kw for_kw first_kw exception_kw duplicates
        release set up down continue exit program method goback initialize initiate terminate
        generate raise resume allocate free validate invoke new self super null function not and or
        greater less equal than numeric alphabetic alphabetic_lower alphabetic_upper positive
        negative line lines page advancing recording mode block contains records record_kw
        characters label omitted linage footing top bottom code_set copy replace off in_kw of
        message terminal symbolic sub_queue_1 sub_queue_2 sub_queue_3 queue source_kw destination
        table error_key status_key end_key text length date_kw time_kw emi egi esi class inherits
        property get column highlight reverse_video source_field json xml parse float_short
        float_long float_extended period comma semicolon left_paren right_paren colon plus minus
        star slash double_star equals greater_than less_than greater_equal less_equal not_equal
        double_colon equal_greater level_number eof newline error compiler_directive :
      TokenKind
